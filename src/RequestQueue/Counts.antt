-- ===== src/RequestQueue/Counts.antt =====
-- app/playersrv/request_queue.go: how many jobs hold a token and how many runs a worker slot.
use globalmail.Prelude.{
  set_at, ℕ, zero, suc, ◌+◌, ◌<◌, ◌≡◌, ◌++◌, Bool, true, not, ◌&&◌, some, List, [], ◌∷◌,
  if◌then◌else◌, get_elem?, arith,
}
use globalmail.RequestQueue.{CommandJob, DispatchRun}

abbrev pub count {ℓ} : {A : Type ℓ} → (A → Bool) → List A → ℕ
count f [] = 0
count f (x ∷ xs) = (if f x then 1 else 0) + count f xs

module _ {ℓ} {A : Type ℓ} (f : A → Bool) where
  pub count-append : (xs ys : List A) → count f (xs ++ ys) ≡ count f xs + count f ys
  count-append [] ys = omega arith
  count-append (x ∷ xs) ys = omega (arith, count-append xs ys)

  -- A changed item counts in the place of the old one.
  pub count-set_at :
      (i : ℕ) (a b : A) (xs : List A)
      → get_elem? xs i ≡ some a
      → count f (set_at i b xs) + (if f a then 1 else 0) ≡ count f xs + (if f b then 1 else 0)
  count-set_at i a b [] h = absurd (ground (arith, h))
  count-set_at zero a b (x ∷ xs) h = ground (arith, h)
  count-set_at (suc i) a b (x ∷ xs) h = omega (arith, count-set_at i a b xs h)

  -- What counts somewhere counts.
  pub count-pos :
      (i : ℕ) (a : A) (xs : List A) → get_elem? xs i ≡ some a → f a ≡ true → 0 < count f xs
  count-pos i a [] h k = absurd (ground (arith, h))
  count-pos zero a (x ∷ xs) h k = ground (arith, h, k)
  count-pos (suc i) a (x ∷ xs) h k = omega (arith, count-pos i a xs h k)

-- The job holds a token; the run holds a worker slot.
abbrev pub holds_token : CommandJob → Bool
holds_token job = job.sent && not job.released

abbrev pub holds_slot : DispatchRun → Bool
holds_slot run = not run.slot_released
