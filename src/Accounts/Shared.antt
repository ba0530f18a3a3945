-- ===== src/Accounts/Shared.antt =====
-- app/playersrv/account_service.go: the role ids of two player servers, or of one before and after a
-- restart. Each keeps users in its own memory.
use globalmail.Prelude.{
  suc, ◌+◌, ◌≡◌, ◌<◌, ◌≤◌, ◌∙◌, sym, none, List, [], ◌∷◌, length, arith, int_eq, ◌==◌, Option-cases,
  Bool-cases, inl, inr, refl, ap,
}
use globalmail.Prelude.Int.{ℤ, pos, ◌+ℤ◌, wrap64}
use globalmail.Prelude.Dict.{Dict, lookup, insert}
use globalmail.Accounts.{
  UserIdentity, MemoryUserRepository, new_memory_user_repository, new_user, get_or_create_user,
}
use globalmail.Accounts.RoleIds.{limit, next_id_lem, after_calls}

length-insert :
    (k : ℤ) (v : UserIdentity) (d : Dict ℤ UserIdentity)
    → lookup k d ≡ none
    → length (insert k v d) ≡ suc (length d)
unfolding lookup insert
length-insert k v [] h = refl
length-insert k v ((j, w) ∷ d) h = elim (Bool-cases (j == k)) [
  | inl z ↦ absurd (ground (arith, h, z))
  | inr z ↦ ground (arith, z, length-insert k v d (ground (arith, h, z)))
]

-- The counter tells how many users there are.
abbrev IsCounted : MemoryUserRepository → Type 0
IsCounted r = r.next_id ≡ pos (100000 + length r.users)

module _ (uid server_id : ℤ) (r : MemoryUserRepository) (w : IsCounted r)
    (h : 100000 + length r.users < limit) where
  new_id : wrap64 (r.next_id +ℤ pos 1) ≡ pos (100001 + length r.users)
  new_id = ground (arith, w, next_id_lem (100000 + length r.users) h)

  -- Whoever is new gets the next number.
  new_role_id :
      lookup uid r.users ≡ none
      → (get_or_create_user uid server_id r).0.0.role_id ≡ pos (100001 + length r.users)
  unfolding get_or_create_user
  new_role_id n = ground (arith, n, new_id)

  login-IsCounted :
      IsCounted (get_or_create_user uid server_id r).1
      × (length (get_or_create_user uid server_id r).1.users ≤ suc (length r.users))
  unfolding get_or_create_user new_user
  login-IsCounted = elim (Option-cases (lookup uid r.users)) [
    | inr (user, z) ↦ (ground (arith, z, w), ground (arith, z))
    | inl z ↦
        let user : UserIdentity = record {
          uid = uid;
          role_id = wrap64 (r.next_id +ℤ pos 1);
          server_id = server_id;
        } in
        let l = length-insert uid user r.users z in
        (ground (arith, z, new_id, l), ground (arith, z, l))
  ]

counted :
    (cs : List (ℤ × ℤ)) (r : MemoryUserRepository)
    → IsCounted r
    → 100000 + length r.users + length cs < limit
    → IsCounted (after_calls cs r) × (100000 + length (after_calls cs r).users < limit)
counted [] r w h = (w, omega (arith, h))
counted (c ∷ cs) r w h =
    let p = login-IsCounted c.0 c.1 r w (omega (arith, h)) in
    counted cs (get_or_create_user c.0 c.1 r).1 p.0 (omega (arith, h, p.1))

IsCounted-start :
    (cs : List (ℤ × ℤ))
    → length cs < 2305843009213693952
    → IsCounted (after_calls cs new_memory_user_repository)
      × (100000 + length (after_calls cs new_memory_user_repository).users < limit)
unfolding new_memory_user_repository
IsCounted-start cs h = counted cs new_memory_user_repository refl (omega (arith, h))

-- The flaw: two repositories that have taken up to 2^61 logins each since their start, such as those
-- of two player servers, or of one before and after a restart. As soon as they have equally many
-- users, whoever is new to the one and whoever is new to the other get the same role id.
pub role_ids_shared :
    (cs ds : List (ℤ × ℤ)) (u v server_id server_id' : ℤ)
    → length cs < 2305843009213693952
    → length ds < 2305843009213693952
    → lookup u (after_calls cs new_memory_user_repository).users ≡ none
    → lookup v (after_calls ds new_memory_user_repository).users ≡ none
    → length (after_calls cs new_memory_user_repository).users
      ≡ length (after_calls ds new_memory_user_repository).users
    → (get_or_create_user u server_id (after_calls cs new_memory_user_repository)).0.0.role_id
      ≡ (get_or_create_user v server_id' (after_calls ds new_memory_user_repository)).0.0.role_id
role_ids_shared cs ds u v server_id server_id' few few' fresh fresh' same =
    let p = IsCounted-start cs few in
    let q = IsCounted-start ds few' in
    new_role_id u server_id (after_calls cs new_memory_user_repository) p.0 p.1 fresh
    ∙ ap (λ n. pos (100001 + n)) same
    ∙ sym (new_role_id v server_id' (after_calls ds new_memory_user_repository) q.0 q.1 fresh')
