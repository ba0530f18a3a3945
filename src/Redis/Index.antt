-- ===== src/Redis/Index.antt =====
-- data/redis/repository.go: the index of the active mails, and the servers that a mail is indexed by.
use globalmail.Prelude.{
  ◌/◌, ◌≤◌, ◌≡◌, ◌++◌, refl, sym, subst, ◌∙◌, arith, Option, none, some, List, [], ◌∷◌, map, In,
  inl, inr, All, ok, Action, or_raise, >>=-eq-ok, string_eq, Option-cases,
}
use globalmail.Prelude.Int.{ℤ, ◌≤ℤ◌}
use globalmail.Types.{Time, Error, Condition, GlobalMail, decode_error}
use globalmail.Cache.Conditions.{server_ids_from_conditions, condition_server_ids}
use globalmail.Redis.Client.{
  RedisClient, RedisView, IsRedis, sadd, active_index, by_server, IsNoZadd,
}
use globalmail.Redis.Repository.{
  RedisCodec, unix, scan_ids, indexed_server_ids, get_active_global_mail_ids, index_writes,
  add_global_mail_to_indexes,
}

unix-le : (s t : Time) → s ≤ t → unix s ≤ℤ unix t
unfolding unix
unix-le s t h = let d : s / 1000000000 ≤ t / 1000000000 = omega arith in ground (arith, d)

scan_ids-In :
    (members : List (Option ℤ)) (ids : List ℤ) (id : ℤ)
    → scan_ids members ≡ some ids
    → In (some id) members
    → In id ids
unfolding scan_ids
scan_ids-In [] ids id h m = absurd (m tt)
scan_ids-In (none ∷ members) ids id h m = absurd (ground (arith, h))
scan_ids-In (some x ∷ members) ids id h m = elim (Option-cases (scan_ids members)) [
  | inl e ↦ absurd (ground (arith, h, e))
  | inr (more, e) ↦
      let f : x ∷ more ≡ ids = ground (arith, h, e) in
      subst (In id) f (here_or more m (scan_ids-In members more id e))
]
  where
    here_or :
        (more : List ℤ)
        → In (some id) (some x ∷ members)
        → (In (some id) members → In id more)
        → In id (x ∷ more)
    here_or more (inl e) later = inl (ground (arith, e))
    here_or more (inr n) later = inr (later n)

server_writes-NoZadd :
    (id : ℤ) (servers : List ℤ)
    → All IsNoZadd (map (λ server_id. sadd (by_server server_id) (id ∷ [])) servers)
server_writes-NoZadd id [] = tt
server_writes-NoZadd id (s ∷ servers) = (refl, server_writes-NoZadd id servers)

module _ {W : Type 0} (client : RedisClient W) (codec : RedisCodec) (clock : W → Time)
    (view : RedisView W) (law : IsRedis client view) where
  -- A mail that was added to the indexes without an error and has not expired is among the active
  -- ones that a reading right after answers, though both times are cut down to seconds.
  pub add_global_mail_to_indexes-found :
      (mail : GlobalMail) (now : Time) (ids : List ℤ) (w w' w'' : W)
      → add_global_mail_to_indexes client codec clock mail w ≡ (ok tt, w')
      → now ≤ mail.expire_time
      → get_active_global_mail_ids client codec clock now w' ≡ (ok ids, w'')
      → In mail.id ids
  unfolding add_global_mail_to_indexes index_writes get_active_global_mail_ids
  add_global_mail_to_indexes-found mail now ids w w' w'' h l k =
      let servers = indexed_server_ids [] mail.conditions in
      let s =
        law.zadd_ok active_index mail.id (unix mail.expire_time)
          (map (λ server_id. sadd (by_server server_id) (mail.id ∷ [])) servers) w w' h
          (server_writes-NoZadd mail.id servers) in
      let scan : List (Option ℤ) → Action W Error (List ℤ) =
        λ members. or_raise (scan_ids members) decode_error in
      let (members, w₁, e, f) =
        >>=-eq-ok (client.z_range_by_score active_index (unix now)) scan w' w'' ids k in
      let z = law.z_range_ok active_index (unix now) mail.id _ members w' w₁ e s in
      scan_ids-In members ids mail.id (scanned members w₁ f) (z.1 (unix-le now mail.expire_time l))
    where
      scanned :
          (members : List (Option ℤ)) (w₁ : W)
          → or_raise (scan_ids members) decode_error w₁ ≡ (ok ids, w'')
          → scan_ids members ≡ some ids
      scanned members w₁ f = elim (Option-cases (scan_ids members)) [
        | inl e ↦ absurd (ground (arith, f, e))
        | inr (x, e) ↦ ground (arith, f, e)
      ]

append_nil {ℓ} : {A : Type ℓ} (xs : List A) → xs ++ [] ≡ xs
append_nil [] = refl
append_nil (x ∷ xs) = ground (arith, append_nil xs)

append_assoc {ℓ} : {A : Type ℓ} (xs ys zs : List A) → (xs ++ ys) ++ zs ≡ xs ++ (ys ++ zs)
append_assoc [] ys zs = refl
append_assoc (x ∷ xs) ys zs = ground (arith, append_assoc xs ys zs)

indexed_server_ids-step :
    (ids : List ℤ) (c : Condition) (cs : List Condition)
    → indexed_server_ids ids (c ∷ cs) ≡ indexed_server_ids (ids ++ condition_server_ids c) cs
unfolding indexed_server_ids condition_server_ids
indexed_server_ids-step ids c cs = ground (arith, append_nil ids)

indexed_server_ids_from :
    (ids : List ℤ) (cs : List Condition)
    → indexed_server_ids ids cs ≡ ids ++ server_ids_from_conditions cs
unfolding indexed_server_ids server_ids_from_conditions
indexed_server_ids_from ids [] = sym (append_nil ids)
indexed_server_ids_from ids (c ∷ cs) =
    indexed_server_ids-step ids c cs
    ∙ indexed_server_ids_from (ids ++ condition_server_ids c) cs
    ∙ append_assoc ids (condition_server_ids c) (server_ids_from_conditions cs)

-- The servers that Redis indexes a mail by are those that the player servers read from its
-- conditions: the two copies of the loop agree.
pub indexed_server_ids-eq :
    (cs : List Condition) → indexed_server_ids [] cs ≡ server_ids_from_conditions cs
indexed_server_ids-eq cs = indexed_server_ids_from [] cs
