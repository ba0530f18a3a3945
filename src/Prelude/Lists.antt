-- ===== src/Prelude/Lists.antt =====
-- Lists measured by native numbers, and predicates on lists by recursion.
use Prim.Native.Nat.{ℕ, zero, suc, ◌+◌, ◌≤◌}
use mathlib.Core.Path.{◌≡◌, refl}
use mathlib.Core.Logic.{◌≢◌, ◌⊎◌, inl, inr}
use mathlib.Core.List.{List, [], ◌∷◌, ◌++◌}
use mathlib.Core.Option.{Option, none, some}
use native.Mathlib.Omega.{arith}

module _ {ℓ} {A : Type ℓ} where
  abbrev pub length : List A → ℕ
  length [] = 0
  length (x ∷ xs) = suc (length xs)

  abbrev pub get_elem? : List A → ℕ → Option A
  get_elem? [] i = none
  get_elem? (x ∷ xs) zero = some x
  get_elem? (x ∷ xs) (suc i) = get_elem? xs i

  abbrev pub take : ℕ → List A → List A
  take zero xs = []
  take (suc n) [] = []
  take (suc n) (x ∷ xs) = x ∷ take n xs

  pub length-append : (xs ys : List A) → length (xs ++ ys) ≡ length xs + length ys
  length-append [] ys = omega arith
  length-append (x ∷ xs) ys = omega (arith, length-append xs ys)

  pub length-take-le : (n : ℕ) (xs : List A) → length (take n xs) ≤ n
  length-take-le zero xs = omega arith
  length-take-le (suc n) [] = omega arith
  length-take-le (suc n) (x ∷ xs) = omega (arith, length-take-le n xs)

  -- `x` stands in the list. The witness says where, so proofs may split on it.
  abbrev pub In : A → List A → Type ℓ
  In x [] = Unit {ℓ} → ⊥
  In x (y ∷ ys) = (x ≡ y) ⊎ In x ys

  pub not-In-nil : (x : A) → In x [] → ⊥
  not-In-nil x h = h tt

  pub In-append_left : (x : A) (xs ys : List A) → In x xs → In x (xs ++ ys)
  In-append_left x [] ys h = absurd (h tt)
  In-append_left x (y ∷ xs) ys (inl e) = inl e
  In-append_left x (y ∷ xs) ys (inr h) = inr (In-append_left x xs ys h)

  pub In-append_right : (x : A) (xs ys : List A) → In x ys → In x (xs ++ ys)
  In-append_right x [] ys h = h
  In-append_right x (y ∷ xs) ys h = inr (In-append_right x xs ys h)

  pub In-append : (x : A) (xs ys : List A) → In x (xs ++ ys) → In x xs ⊎ In x ys
  In-append x [] ys h = inr h
  In-append x (y ∷ xs) ys (inl e) = inl (inl e)
  In-append x (y ∷ xs) ys (inr h) = elim (In-append x xs ys h) [
    | inl a ↦ inl (inr a)
    | inr b ↦ inr b
  ]

  -- Every element has the property.
  abbrev pub All {κ} : (A → Type κ) → List A → Type κ
  All P [] = Unit
  All P (x ∷ xs) = P x × All P xs

  pub All-append {κ} : (P : A → Type κ) (xs ys : List A) → All P xs → All P ys → All P (xs ++ ys)
  All-append P [] ys hx hy = hy
  All-append P (x ∷ xs) ys hx hy = (hx.0, All-append P xs ys hx.1 hy)

  pub All-In {κ} : (P : A → Type κ) (xs : List A) (x : A) → All P xs → In x xs → P x
  All-In P [] x h m = absurd (m tt)
  All-In P (y ∷ xs) x h (inl e) = rw e h.0
  All-In P (y ∷ xs) x h (inr m) = All-In P xs x h.1 m

-- A list with another item in one place; out of range it stays as it is.
abbrev pub set_at {ℓ} : {A : Type ℓ} → ℕ → A → List A → List A
set_at i a [] = []
set_at zero a (x ∷ xs) = a ∷ xs
set_at (suc i) a (x ∷ xs) = x ∷ set_at i a xs

pub get_elem?-set_at {ℓ} :
    {A : Type ℓ} (i : ℕ) (a b : A) (xs : List A)
    → get_elem? xs i ≡ some a
    → get_elem? (set_at i b xs) i ≡ some b
get_elem?-set_at i a b [] h = absurd (ground (arith, h))
get_elem?-set_at zero a b (x ∷ xs) h = ground arith
get_elem?-set_at (suc i) a b (x ∷ xs) h = get_elem?-set_at i a b xs h

pub get_elem?-set_at_or {ℓ} :
    {A : Type ℓ} (i j : ℕ) (b c : A) (xs : List A)
    → get_elem? (set_at i b xs) j ≡ some c
    → (c ≡ b) ⊎ (get_elem? xs j ≡ some c)
get_elem?-set_at_or i j b c [] h = inr h
get_elem?-set_at_or zero zero b c (x ∷ xs) h = inl (ground (arith, h))
get_elem?-set_at_or zero (suc j) b c (x ∷ xs) h = inr h
get_elem?-set_at_or (suc i) zero b c (x ∷ xs) h = inr h
get_elem?-set_at_or (suc i) (suc j) b c (x ∷ xs) h = get_elem?-set_at_or i j b c xs h

pub get_elem?-append_or {ℓ} :
    {A : Type ℓ} (j : ℕ) (b c : A) (xs : List A)
    → get_elem? (xs ++ b ∷ []) j ≡ some c
    → (c ≡ b) ⊎ (get_elem? xs j ≡ some c)
get_elem?-append_or zero b c [] h = inl (ground (arith, h))
get_elem?-append_or (suc j) b c [] h = absurd (ground (arith, h))
get_elem?-append_or zero b c (x ∷ xs) h = inr h
get_elem?-append_or (suc j) b c (x ∷ xs) h = get_elem?-append_or j b c xs h

-- The same with the place, which is another one where the item is an old one.
pub get_elem?-set_at_place {ℓ} :
    {A : Type ℓ} (i j : ℕ) (b c : A) (xs : List A)
    → get_elem? (set_at i b xs) j ≡ some c
    → ((j ≡ i) × (c ≡ b)) ⊎ ((j ≢ i) × (get_elem? xs j ≡ some c))
get_elem?-set_at_place i j b c [] h = absurd (ground (arith, h))
get_elem?-set_at_place zero zero b c (x ∷ xs) h = inl (refl, ground (arith, h))
get_elem?-set_at_place zero (suc j) b c (x ∷ xs) h = inr (λ e. omega (arith, e), h)
get_elem?-set_at_place (suc i) zero b c (x ∷ xs) h = inr (λ e. omega (arith, e), h)
get_elem?-set_at_place (suc i) (suc j) b c (x ∷ xs) h = elim (get_elem?-set_at_place i j b c xs h) [
  | inl p ↦ inl (ground (arith, p), p.1)
  | inr p ↦ inr (λ e. p.0 (omega (arith, e)), p.1)
]

pub get_elem?-append_place {ℓ} :
    {A : Type ℓ} (j : ℕ) (b c : A) (xs : List A)
    → get_elem? (xs ++ b ∷ []) j ≡ some c
    → ((j ≡ length xs) × (c ≡ b)) ⊎ (get_elem? xs j ≡ some c)
get_elem?-append_place zero b c [] h = inl (refl, ground (arith, h))
get_elem?-append_place (suc j) b c [] h = absurd (ground (arith, h))
get_elem?-append_place zero b c (x ∷ xs) h = inr h
get_elem?-append_place (suc j) b c (x ∷ xs) h = elim (get_elem?-append_place j b c xs h) [
  | inl p ↦ inl (ground (arith, p), p.1)
  | inr p ↦ inr p
]
