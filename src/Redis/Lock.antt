-- ===== src/Redis/Lock.antt =====
-- data/redis/repository.go: the lock of a rebuild. The token that is stored is the time in
-- nanoseconds, printed; a release deletes the key only where it still holds the token.
use globalmail.Prelude.{
  ◌≡◌, ◌≢◌, ◌∙◌, ap, subst, refl, arith, Bool, true, false, Option, none, some, Result, ◌⊎◌, inl,
  inr, ok, err, Action, pure, ◌>>=◌, if◌then◌else◌,
}
use globalmail.Prelude.Int.{ℤ}
use globalmail.Types.{Bytes, Error}
use globalmail.Redis.Client.{RedisClient, RedisView, IsRedis, rebuild_lock}
use globalmail.Redis.Lifetimes.{default_ttl}

module _ {W : Type 0} (client : RedisClient W) (same : Bytes → Bytes → Bool) where
  -- The script, which compares the stored value with the token.
  unfoldable pub release_script : Bytes → Option Bytes → Option Bytes
  release_script token none = none
  release_script token (some held) = if same held token then none else some held

  unfoldable pub release_rebuild_lock : ℤ → Bytes → Action W Error (Unit {0})
  unfolding release_script
  release_rebuild_lock version token = client.eval (rebuild_lock version) (release_script token)

  -- `none` is a lock that another holds, whose release does nothing.
  unfoldable pub try_acquire_rebuild_lock :
      ℤ → Bytes → ℤ → Action W Error (Option (Action W Error (Unit {0})))
  unfolding release_rebuild_lock default_ttl
  try_acquire_rebuild_lock version token ttl = do
    acquired ← client.set_nx (rebuild_lock version) token (default_ttl ttl 30)
    pure (if acquired then some (release_rebuild_lock version token) else none)

  module _ (view : RedisView W) (law : IsRedis client view) where
    acquired_value :
        (version : ℤ) (token : Bytes) (ttl : ℤ) (release : Action W Error (Unit {0})) (w w' : W)
        → try_acquire_rebuild_lock version token ttl w ≡ (ok (some release), w')
        → (view.value w (rebuild_lock version) ≡ none)
          × (view.value w' (rebuild_lock version) ≡ some token)
    unfolding try_acquire_rebuild_lock
    acquired_value version token ttl release w w' h =
        by_answer (client.set_nx (rebuild_lock version) token (default_ttl ttl 30) w) refl
      where
        by_answer :
            (r : Result Error Bool × W)
            → client.set_nx (rebuild_lock version) token (default_ttl ttl 30) w ≡ r
            → (view.value w (rebuild_lock version) ≡ none)
              × (view.value w' (rebuild_lock version) ≡ some token)
        by_answer (err e, w₁) k = absurd (ground (arith, h, k))
        by_answer (ok false, w₁) k = absurd (ground (arith, h, k))
        by_answer (ok true, w₁) k =
            let l = law.set_nx_true (rebuild_lock version) token (default_ttl ttl 30) w w₁ k in
            ground (arith, h, k, l)

    -- The release that is answered is that of the token.
    acquired_release :
        (version : ℤ) (token : Bytes) (ttl : ℤ) (release : Action W Error (Unit {0})) (w w' : W)
        → try_acquire_rebuild_lock version token ttl w ≡ (ok (some release), w')
        → release_rebuild_lock version token ≡ release
    unfolding try_acquire_rebuild_lock
    acquired_release version token ttl release w w' h =
        by_answer (client.set_nx (rebuild_lock version) token (default_ttl ttl 30) w) refl
      where
        by_answer :
            (a : Result Error Bool × W)
            → client.set_nx (rebuild_lock version) token (default_ttl ttl 30) w ≡ a
            → release_rebuild_lock version token ≡ release
        by_answer (err e, w₁) k = absurd (ground (arith, h, k))
        by_answer (ok false, w₁) k = absurd (ground (arith, h, k))
        by_answer (ok true, w₁) k = ground (arith, h, k)

    tried_value :
        (version : ℤ) (token other : Bytes) (ttl : ℤ)
        (r : Result Error (Option (Action W Error (Unit {0})))) (w w' : W)
        → view.value w (rebuild_lock version) ≡ some token
        → try_acquire_rebuild_lock version other ttl w ≡ (r, w')
        → view.value w' (rebuild_lock version) ≡ some token
    unfolding try_acquire_rebuild_lock
    tried_value version token other ttl r w w' v h =
        by_answer (client.set_nx (rebuild_lock version) other (default_ttl ttl 30) w) refl
      where
        by_answer :
            (a : Result Error Bool × W)
            → client.set_nx (rebuild_lock version) other (default_ttl ttl 30) w ≡ a
            → view.value w' (rebuild_lock version) ≡ some token
        by_answer (ok true, w₁) k =
            let l = law.set_nx_true (rebuild_lock version) other (default_ttl ttl 30) w w₁ k in
            absurd (ground (arith, l, v))
        by_answer (ok false, w₁) k =
            let l = law.set_nx_false (rebuild_lock version) other (default_ttl ttl 30) w w₁ k in
            ground (arith, h, k, l, v)
        by_answer (err x, w₁) k =
            let l = law.set_nx_failed (rebuild_lock version) other (default_ttl ttl 30) x w w₁ k in
            let f : w₁ ≡ w' = ground (arith, h, k) in
            subst (λ u. view.value u (rebuild_lock version) ≡ some token) f (ground (arith, l, v))

    released_value :
        (version : ℤ) (token other : Bytes) (r : Result Error (Unit {0})) (w w' : W)
        → view.value w (rebuild_lock version) ≡ some token
        → same token other ≡ false
        → release_rebuild_lock version other w ≡ (r, w')
        → view.value w' (rebuild_lock version) ≡ some token
    unfolding release_rebuild_lock release_script
    released_value version token other (ok u) w w' v n h =
        ground (arith, law.eval_ok (rebuild_lock version) (release_script other) w w' h, v, n)
    released_value version token other (err x) w w' v n h =
        ground (arith, law.eval_failed (rebuild_lock version) (release_script other) x w w' h, v, n)

    -- What goes on while the lock has not run out: others try to acquire it and release locks of
    -- other tokens, with or without an error, and all else leaves the lock's key as it is.
    pub data Meanwhile (version : ℤ) (token : Bytes) (w : W) : W → Type 0 where
      start : Meanwhile version token w w
      tries :
          {u u' : W}
          → Meanwhile version token w u
          → (other : Bytes) (ttl : ℤ) (r : Result Error (Option (Action W Error (Unit {0}))))
          → try_acquire_rebuild_lock version other ttl u ≡ (r, u')
          → Meanwhile version token w u'
      releases :
          {u u' : W}
          → Meanwhile version token w u
          → (other : Bytes) (r : Result Error (Unit {0})) → same token other ≡ false
          → release_rebuild_lock version other u ≡ (r, u')
          → Meanwhile version token w u'
      passes :
          {u u' : W}
          → Meanwhile version token w u
          → view.value u' (rebuild_lock version) ≡ view.value u (rebuild_lock version)
          → Meanwhile version token w u'

    held_meanwhile :
        (version : ℤ) (token : Bytes) (w v : W)
        → view.value w (rebuild_lock version) ≡ some token
        → Meanwhile version token w v
        → view.value v (rebuild_lock version) ≡ some token
    held_meanwhile version token w v h start = h
    held_meanwhile version token w v h (tries {u} m other ttl r e) =
        tried_value version token other ttl r u v (held_meanwhile version token w u h m) e
    held_meanwhile version token w v h (releases {u} m other r n e) =
        released_value version token other r u v (held_meanwhile version token w u h m) n e
    held_meanwhile version token w v h (passes {u} m e) = e ∙ held_meanwhile version token w u h m

    released_own :
        (version : ℤ) (token : Bytes) (done : Result Error (Unit {0})) (w w' : W)
        → view.value w (rebuild_lock version) ≡ some token
        → same token token ≡ true
        → release_rebuild_lock version token w ≡ (done, w')
        → (view.value w' (rebuild_lock version) ≡ none) ⊎ ((x : Error) × (done ≡ err x))
    unfolding release_rebuild_lock release_script
    released_own version token (err x) w w' v own h = inr (x, refl)
    released_own version token (ok u) w w' v own h =
        inl
          (ground (arith, law.eval_ok (rebuild_lock version) (release_script token) w w' h, v, own))

    -- From the acquisition of the lock of a version on, whatever others do as long as it has not run
    -- out, no other call for this version acquires it; and the release that the acquisition answered
    -- leaves the version without a lock, or fails.
    pub try_acquire_rebuild_lock-excludes :
        (version : ℤ) (token other : Bytes) (ttl other_ttl : ℤ)
        (release second : Action W Error (Unit {0})) (done : Result Error (Unit {0}))
        (w w' v v' v'' : W)
        → same token token ≡ true
        → try_acquire_rebuild_lock version token ttl w ≡ (ok (some release), w')
        → Meanwhile version token w' v
        → release v ≡ (done, v')
        → (try_acquire_rebuild_lock version other other_ttl v ≢ (ok (some second), v''))
          × ((view.value v' (rebuild_lock version) ≡ none) ⊎ ((x : Error) × (done ≡ err x)))
    try_acquire_rebuild_lock-excludes version token other ttl other_ttl release second done w w' v
          v' v'' own h m r =
        let held =
          held_meanwhile version token w' v (acquired_value version token ttl release w w' h).1 m in
        let answered : release_rebuild_lock version token v ≡ (done, v') =
          ap (λ (f : Action W Error (Unit {0})). f v)
            (acquired_release version token ttl release w w' h)
          ∙ r in
        (
          λ k. ground (arith, held, acquired_value version other other_ttl second v v'' k),
          released_own version token done v v' held own answered,
        )

    -- A release that succeeds takes the lock away where the key still holds the token. A lock
    -- that another process has acquired since, with another token, stays.
    release_rebuild_lock-own :
        (version : ℤ) (token held : Bytes) (w w' : W)
        → view.value w (rebuild_lock version) ≡ some held
        → release_rebuild_lock version token w ≡ (ok tt, w')
        → view.value w' (rebuild_lock version) ≡ (if same held token then none else some held)
    unfolding release_rebuild_lock release_script
    release_rebuild_lock-own version token held w w' v h =
        let l = law.eval_ok (rebuild_lock version) (release_script token) w w' h in
        ground (arith, l, v)
