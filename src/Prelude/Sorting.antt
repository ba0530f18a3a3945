-- ===== src/Prelude/Sorting.antt =====
-- Go's `sort.Ints` and `sort.Slice` as an insertion sort by a Boolean "comes before". Among equals
-- `sort.Slice` promises no order; this is one that it may give.
use mathlib.Core.Path.{◌≡◌}
use mathlib.Core.Logic.{◌⊎◌, inl, inr}
use mathlib.Core.Bool.{Bool, true, false}
use mathlib.Core.List.{List, [], ◌∷◌}
use native.Mathlib.Omega.{arith}
use globalmail.Prelude.Tests.{if◌then◌else◌, Bool-cases}
use globalmail.Prelude.Lists.{In, All}

module _ {A : Type 0} (less : A → A → Bool) where
  unfoldable pub insert_sorted : A → List A → List A
  insert_sorted x [] = x ∷ []
  insert_sorted x (y ∷ ys) = if less y x then y ∷ insert_sorted x ys else x ∷ y ∷ ys

  unfoldable pub sort : List A → List A
  unfolding insert_sorted
  sort [] = []
  sort (x ∷ xs) = insert_sorted x (sort xs)

  -- No element comes before one that stands ahead of it.
  abbrev pub IsSorted : List A → Type 0
  IsSorted [] = Unit
  IsSorted (x ∷ xs) = All (λ y. less y x ≡ false) xs × IsSorted xs

  -- `less` is a strict order whose incomparable elements are equals.
  pub record IsOrder : Type 0 where
    pub asym : (x y : A) → less x y ≡ true → less y x ≡ false
    pub chain : (x y z : A) → less y x ≡ false → less z y ≡ false → less z x ≡ false

  pub In-insert_sorted : (a x : A) (xs : List A) → In a (insert_sorted x xs) → (a ≡ x) ⊎ In a xs
  unfolding insert_sorted
  In-insert_sorted a x [] h = h
  In-insert_sorted a x (y ∷ ys) h = ground (arith, In-insert_sorted a x ys)

  pub insert_sorted-In : (a x : A) (xs : List A) → (a ≡ x) ⊎ In a xs → In a (insert_sorted x xs)
  unfolding insert_sorted
  insert_sorted-In a x [] h = h
  insert_sorted-In a x (y ∷ ys) h = ground (arith, insert_sorted-In a x ys)

  -- Sorting keeps the elements, both ways.
  pub In-sort : (a : A) (xs : List A) → In a (sort xs) → In a xs
  unfolding sort
  In-sort a [] h = h
  In-sort a (x ∷ xs) h = elim (In-insert_sorted a x (sort xs) h) [
    | inl e ↦ inl e
    | inr m ↦ inr (In-sort a xs m)
  ]

  pub sort-In : (a : A) (xs : List A) → In a xs → In a (sort xs)
  unfolding sort
  sort-In a [] h = h
  sort-In a (x ∷ xs) (inl e) = insert_sorted-In a x (sort xs) (inl e)
  sort-In a (x ∷ xs) (inr m) = insert_sorted-In a x (sort xs) (inr (sort-In a xs m))

  All-insert_sorted :
      (P : A → Type 0) (x : A) (xs : List A) → P x → All P xs → All P (insert_sorted x xs)
  unfolding insert_sorted
  All-insert_sorted P x [] p ps = (p, ps)
  All-insert_sorted P x (y ∷ ys) p ps = ground (arith, All-insert_sorted P x ys p ps.1)

  module _ (o : IsOrder) where
    All-chain :
        (x y : A) (zs : List A)
        → less y x ≡ false
        → All (λ z. less z y ≡ false) zs
        → All (λ z. less z x ≡ false) zs
    All-chain x y [] h a = a
    All-chain x y (z ∷ zs) h a = (o.chain x y z h a.0, All-chain x y zs h a.1)

    insert_sorted-IsSorted : (x : A) (xs : List A) → IsSorted xs → IsSorted (insert_sorted x xs)
    unfolding insert_sorted
    insert_sorted-IsSorted x [] s = (tt, tt)
    insert_sorted-IsSorted x (y ∷ ys) s = elim (Bool-cases (less y x)) [
      | inl t ↦
          rw (t, insert_sorted)
            (
              All-insert_sorted (λ z. less z y ≡ false) x ys (o.asym y x t) s.0,
              insert_sorted-IsSorted x ys s.1,
            )
      | inr f ↦ rw (f, insert_sorted) ((f, All-chain x y ys f s.0), s)
    ]

    pub sort-IsSorted : (xs : List A) → IsSorted (sort xs)
    unfolding sort
    sort-IsSorted [] = tt
    sort-IsSorted (x ∷ xs) = insert_sorted-IsSorted x (sort xs) (sort-IsSorted xs)
