-- ===== src/Accounts/RoleIds.antt =====
-- app/playersrv/account_service.go: the role ids that are handed out.
use globalmail.Prelude.{
  ℕ, suc, ◌+◌, ◌≡◌, ◌≤◌, ◌<◌, refl, sym, ◌∙◌, inl, inr, Bool, Option, none, some, List, [], ◌∷◌,
  length, arith, ◌==◌, int_eq, ==_cases, if◌then◌else◌, subst, false,
}
use globalmail.Prelude.Int.{ℤ, pos, ◌+ℤ◌, wrap64, wrap64_id}
use globalmail.Prelude.Dict.{lookup, lookup-insert, lookup-insert_self}
use globalmail.Accounts.{
  UserIdentity, MemoryUserRepository, new_memory_user_repository, new_user, get_or_create_user,
}

-- All role ids stem from the counter, which stands at `n`, and no two users share one.
pub record IsNumbered (r : MemoryUserRepository) (n : ℕ) : Type 0 where
  pub counter : r.next_id ≡ pos n
  pub below :
      (uid : ℤ) (a : UserIdentity)
      → lookup uid r.users ≡ some a
      → (m : ℕ) × (a.role_id ≡ pos m) × (m ≤ n)
  pub apart :
      (u v : ℤ) (a b : UserIdentity)
      → lookup u r.users ≡ some a
      → lookup v r.users ≡ some b
      → a.role_id ≡ b.role_id
      → u ≡ v

abbrev pub limit : ℕ
limit = 4611686018427387904

pub next_id_lem : (n : ℕ) → n < limit → wrap64 (pos n +ℤ pos 1) ≡ pos (suc n)
unfolding ◌+ℤ◌
next_id_lem n h = ground (arith, wrap64_id (pos (n + 1)))

module _ (uid server_id : ℤ) (r : MemoryUserRepository) (n : ℕ) (w : IsNumbered r n)
    (h : n < limit) where
  entry_lem :
      (v : ℤ)
      → lookup v (new_user uid server_id r).users ≡ (
          if uid == v
          then some (record { uid = uid; role_id = pos (suc n); server_id = server_id })
          else lookup v r.users)
  unfolding new_user
  entry_lem v = ground (
    arith,
    lookup-insert v uid
        (record { uid = uid; role_id = wrap64 (r.next_id +ℤ pos 1); server_id = server_id })
        r.users,
    w.counter,
    next_id_lem n h,
  )

  fresh_id : (v : ℤ) (a : UserIdentity) → lookup v r.users ≡ some a → a.role_id ≡ pos (suc n) → ⊥
  fresh_id v a l e = let (m, p, le) = w.below v a l in ground (arith, p, e, le)

  new_user-IsNumbered : IsNumbered (new_user uid server_id r) (suc n)
  unfolding new_user
  new_user-IsNumbered = record {
    counter = ground (arith, w.counter, next_id_lem n h);
    below = λ v a l. elim (==_cases uid v) [
      | inl (p, b) ↦ (suc n, ground (arith, entry_lem v, b, l), omega arith)
      | inr (ne, b) ↦
          let (m, q, le) = w.below v a (ground (arith, entry_lem v, b, l)) in
          (m, q, omega (arith, le))
    ];
    apart = λ u v a b k l e. elim (==_cases uid u) [
      | inl (p, t) ↦ elim (==_cases uid v) [
        | inl (q, s) ↦ sym p ∙ q
        | inr (ne, s) ↦ absurd (
            fresh_id v b (ground (arith, entry_lem v, s, l)) (ground (arith, entry_lem u, t, k, e)))
      ]
      | inr (ne, t) ↦ elim (==_cases uid v) [
        | inl (q, s) ↦ absurd (
            fresh_id u a (ground (arith, entry_lem u, t, k)) (ground (arith, entry_lem v, s, l, e)))
        | inr (ne', s) ↦
            w.apart u v a b (ground (arith, entry_lem u, t, k)) (ground (arith, entry_lem v, s, l))
              e
      ]
    ];
  }

-- The repository after a sequence of calls, each a uid and a server.
abbrev pub after_calls : List (ℤ × ℤ) → MemoryUserRepository → MemoryUserRepository
after_calls [] r = r
after_calls (c ∷ cs) r = after_calls cs (get_or_create_user c.0 c.1 r).1

widen :
    (r : MemoryUserRepository) (n k : ℕ)
    → IsNumbered r n
    → (n + k) < limit
    → (uid server_id : ℤ)
    → (m : ℕ) × IsNumbered (get_or_create_user uid server_id r).1 m × (m ≤ suc n)
unfolding get_or_create_user
widen r n k w h uid server_id = by_found (lookup uid r.users) refl
  where
    by_found :
        (o : Option UserIdentity)
        → lookup uid r.users ≡ o
        → (m : ℕ) × IsNumbered (get_or_create_user uid server_id r).1 m × (m ≤ suc n)
    by_found none e = (
      suc n,
      subst (λ q. IsNumbered q (suc n)) (ground (arith, e))
          (new_user-IsNumbered uid server_id r n w (omega (arith, h))),
      omega arith,
    )
    by_found (some user) e = (n, subst (λ q. IsNumbered q n) (ground (arith, e)) w, omega arith)

numbered :
    (cs : List (ℤ × ℤ)) (r : MemoryUserRepository) (n : ℕ)
    → IsNumbered r n
    → n + length cs < limit
    → (m : ℕ) × IsNumbered (after_calls cs r) m
numbered [] r n w h = (n, w)
numbered (c ∷ cs) r n w h =
    let (m, v, le) = widen r n (length cs) w (omega (arith, h)) c.0 c.1 in
    numbered cs (get_or_create_user c.0 c.1 r).1 m v (omega (arith, h, le))

start-IsNumbered : IsNumbered new_memory_user_repository 100000
unfolding new_memory_user_repository lookup
start-IsNumbered = record {
  counter = refl;
  below = λ v a l. absurd (ground (arith, l));
  apart = λ u v a b k l e. absurd (ground (arith, k));
}

-- In one repository, from its start on and after up to 2^61 logins, no two users have the same role
-- id.
pub role_ids_apart :
    (cs : List (ℤ × ℤ)) (u v : ℤ) (a b : UserIdentity)
    → length cs < 2305843009213693952
    → lookup u (after_calls cs new_memory_user_repository).users ≡ some a
    → lookup v (after_calls cs new_memory_user_repository).users ≡ some b
    → a.role_id ≡ b.role_id
    → u ≡ v
role_ids_apart cs u v a b few k l e =
    let (m, w) =
      numbered cs new_memory_user_repository 100000 start-IsNumbered (omega (arith, few)) in
    w.apart u v a b k l e

-- A user who has logged in gets the same identity at every later login, on whatever server, and is
-- not new.
get_or_create_user-again :
    (uid server_id server_id' : ℤ) (user : UserIdentity) (is_new : Bool)
    (r r' : MemoryUserRepository)
    → get_or_create_user uid server_id r ≡ ((user, is_new), r')
    → get_or_create_user uid server_id' r' ≡ ((user, false), r')
unfolding get_or_create_user new_user
get_or_create_user-again uid server_id server_id' user is_new r r' h =
    let id = wrap64 (r.next_id +ℤ pos 1) in
    let l =
      lookup-insert_self uid (record { uid = uid; role_id = id; server_id = server_id }) r.users in
    ground (arith, l)
