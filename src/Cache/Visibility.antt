-- ===== src/Cache/Visibility.antt =====
-- domain/globalmail/cache.go: which mails a player is shown.
use globalmail.Prelude.{
  ◌≡◌, ◌≤◌, ◌<◌, refl, sym, ◌∙◌, ap, subst, ◌⊎◌, inl, inr, true, false, some, List, [], ◌∷◌, In,
  contains, contains_iff, IsDistinct, eq-nil_of_contains, Option-cases, arith, int_eq,
}
use globalmail.Prelude.Int.{ℤ}
use globalmail.Prelude.Dict.{lookup}
use globalmail.Types.{Time, GlobalMail, UserProfile, MailStatus, published, is_published}
use globalmail.Cache.Conditions.{compile_conditions, conditions_match}
use globalmail.Cache.Snapshot.{
  CacheSnapshot, at_server, compiled_at, build_snapshot, candidate_ids, or_else, visible_at,
  visible_from, visible_mails,
}
use globalmail.Cache.Build.{
  mail_ids, names_server, build_snapshot_sound, build_snapshot_complete, build_snapshot_active,
  build_snapshot_servers,
}

-- The player may see the mail now: it is published, its time has come and has not passed, and
-- each of its conditions holds.
pub record IsShown (p : UserProfile) (now : Time) (m : GlobalMail) : Type 0 where
  pub is_live : m.status ≡ published
  pub started : m.start_time ≤ now
  pub not_expired : now < m.expire_time
  pub eligible : conditions_match (compile_conditions m.conditions) p ≡ true

is_published-eq : (st : MailStatus) → is_published st ≡ true → st ≡ published
is_published-eq st h = ground arith

visible_at-IsShown :
    (s : CacheSnapshot) (p : UserProfile) (now : Time) (id : ℤ) (m : GlobalMail)
    → visible_at s p now id ≡ some m
    → (lookup id s.mails_by_id ≡ some m)
      × (m.status ≡ published)
      × (m.start_time ≤ now)
      × (now < m.expire_time)
      × (conditions_match (compiled_at id s.compiled_conditions) p ≡ true)
unfolding visible_at
visible_at-IsShown s p now id m h = ground arith

IsShown-visible_at :
    (s : CacheSnapshot) (p : UserProfile) (now : Time) (id : ℤ) (m : GlobalMail)
    → lookup id s.mails_by_id ≡ some m
    → compiled_at id s.compiled_conditions ≡ compile_conditions m.conditions
    → IsShown p now m
    → visible_at s p now id ≡ some m
unfolding visible_at
IsShown-visible_at s p now id m l c v = ground arith

visible_from-In :
    (s : CacheSnapshot) (p : UserProfile) (now : Time) (m : GlobalMail) (ids : List ℤ)
    → In m (visible_from s p now ids)
    → (id : ℤ) × In id ids × (visible_at s p now id ≡ some m)
unfolding visible_from
visible_from-In s p now m [] h = absurd (h tt)
visible_from-In s p now m (x ∷ xs) h = elim (Option-cases (visible_at s p now x)) [
  | inl e ↦
      let (id, there, v) = visible_from-In s p now m xs (rw (e, visible_from) at h) in
      (id, inr there, v)
  | inr (m', e) ↦ shown (visible_from-In s p now m xs) m' e (rw (e, visible_from) at h)
]
  where
    shown :
        (In m (visible_from s p now xs) → (id : ℤ) × In id xs × (visible_at s p now id ≡ some m))
        → (m' : GlobalMail) → visible_at s p now x ≡ some m'
        → In m (m' ∷ visible_from s p now xs)
        → (id : ℤ) × In id (x ∷ xs) × (visible_at s p now id ≡ some m)
    shown ih m' e (inl q) = (x, inl refl, rw q e)
    shown ih m' e (inr r) = let (id, there, v) = ih r in (id, inr there, v)

In-visible_from :
    (s : CacheSnapshot) (p : UserProfile) (now : Time) (m : GlobalMail) (id : ℤ) (ids : List ℤ)
    → In id ids
    → visible_at s p now id ≡ some m
    → In m (visible_from s p now ids)
unfolding visible_from
In-visible_from s p now m id [] h v = absurd (h tt)
In-visible_from s p now m id (x ∷ xs) (inl e) v =
    let here : visible_at s p now x ≡ some m = subst (λ k. visible_at s p now k ≡ some m) e v in
    rw (here, visible_from) (inl refl)
In-visible_from s p now m id (x ∷ xs) (inr h) v = elim (Option-cases (visible_at s p now x)) [
  | inl e ↦ rw (e, visible_from) (In-visible_from s p now m id xs h v)
  | inr (m', e) ↦ rw (e, visible_from) (inr (In-visible_from s p now m id xs h v))
]

or_else_some : (xs all : List ℤ) (k : ℤ) → contains xs k ≡ true → or_else xs all ≡ xs
unfolding contains
or_else_some [] all k h = cc
or_else_some (x ∷ xs) all k h = refl

-- The server of the player has an index of its own.
abbrev pub HasIndex : List GlobalMail → UserProfile → Type 0
HasIndex mails p = (j : ℤ) × (names_server p.server_id j mails ≡ true)

module _ (version : ℤ) (built : Time) (mails : List GlobalMail) (p : UserProfile) (now : Time) where
  abbrev snap : CacheSnapshot
  snap = build_snapshot version built mails

  -- A mail that is shown after a refresh is one of those that the refresh loaded, it is published
  -- and within its time, and all its conditions hold of the player.
  pub visible_mails_sound :
      (m : GlobalMail) → In m (visible_mails snap p now) → In m mails × IsShown p now m
  unfolding visible_mails
  visible_mails_sound m h =
      let (id, there, v) = visible_from-In snap p now m (candidate_ids snap p) h in
      let (l, live, st, ex, cond) = visible_at-IsShown snap p now id m v in
      let (here, _, comp) = build_snapshot_sound version built mails id m l in
      (
        here,
        record {
          is_live = live;
          started = st;
          not_expired = ex;
          eligible = subst (λ cs. conditions_match cs p ≡ true) comp cond;
        },
      )

  In-mail_ids : (m : GlobalMail) (ms : List GlobalMail) → In m ms → In m.id (mail_ids ms)
  In-mail_ids m [] h = absurd (h tt)
  In-mail_ids m (x ∷ xs) (inl e) = inl (ap (λ y. y.id) e)
  In-mail_ids m (x ∷ xs) (inr h) = inr (In-mail_ids m xs h)

  -- Where an index for the player's server exists, the candidates are the ids of that index.
  candidates_indexed :
      HasIndex mails p
      → (j : ℤ) → contains (candidate_ids snap p) j ≡ names_server p.server_id j mails
  unfolding candidate_ids
  candidates_indexed (k, has) j = ground (
    arith,
    or_else_some (at_server p.server_id snap.mail_ids_by_server) snap.active_mail_ids k,
    build_snapshot_servers version built mails p.server_id k,
    build_snapshot_servers version built mails p.server_id j,
  )

  is_candidate :
      (m : GlobalMail)
      → In m mails
      → ((j : ℤ) → names_server p.server_id j mails ≡ false)
        ⊎ (names_server p.server_id m.id mails ≡ true)
      → In m.id (candidate_ids snap p)
  unfolding candidate_ids
  is_candidate m h (inl nobody) =
      let bare : at_server p.server_id snap.mail_ids_by_server ≡ [] =
        eq-nil_of_contains _
          (λ j. build_snapshot_servers version built mails p.server_id j ∙ nobody j) in
      subst (λ xs. In m.id (or_else xs snap.active_mail_ids)) (sym bare)
        (subst (In m.id) (sym (build_snapshot_active version built mails)) (In-mail_ids m mails h))
  is_candidate m h (inr named) =
      (contains_iff (candidate_ids snap p) m.id).0 (candidates_indexed (m.id, named) m.id ∙ named)

  -- A loaded mail that may be shown to the player is shown, if no loaded mail names the player's
  -- server, or if this one does. The ids of the loaded mails are distinct.
  pub visible_mails_complete :
      (m : GlobalMail)
      → IsDistinct (mail_ids mails)
      → In m mails
      → IsShown p now m
      → ((j : ℤ) → names_server p.server_id j mails ≡ false)
        ⊎ (names_server p.server_id m.id mails ≡ true)
      → In m (visible_mails snap p now)
  unfolding visible_mails
  visible_mails_complete m d h v c =
      let l = build_snapshot_complete version built mails m d h in
      In-visible_from snap p now m m.id (candidate_ids snap p) (is_candidate m h c) (
        IsShown-visible_at snap p now m.id m l (build_snapshot_sound version built mails m.id m l).2
          v)

  -- The flaw: once any loaded mail names the player's server, a mail that names no server, meant
  -- for everybody, is hidden from the player, although its conditions hold.
  pub unaddressed_mail_hidden :
      (m : GlobalMail)
      → HasIndex mails p
      → names_server p.server_id m.id mails ≡ false
      → In m (visible_mails snap p now)
      → ⊥
  unfolding visible_mails
  unaddressed_mail_hidden m has out h =
      let (id, there, v) = visible_from-In snap p now m (candidate_ids snap p) h in
      let l = (visible_at-IsShown snap p now id m v).0 in
      let same = (build_snapshot_sound version built mails id m l).1 in
      let yes_there = (contains_iff (candidate_ids snap p) id).1 there in
      let named =
        sym out
        ∙ ap (λ j. names_server p.server_id j mails) same
        ∙ sym (candidates_indexed has id)
        ∙ yes_there in
      cc named
