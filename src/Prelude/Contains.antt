-- ===== src/Prelude/Contains.antt =====
-- Membership as a Boolean test, for the `map[int]struct{}` sets of the source.
use mathlib.Core.Path.{◌≡◌, refl, ◌∙◌}
use mathlib.Core.Logic.{◌↔◌, inl, inr}
use mathlib.Core.Bool.{Bool, true, false, not, ◌&&◌, ◌||◌}
use mathlib.Core.List.{List, [], ◌∷◌, ◌++◌}
use native.Mathlib.Omega.{arith}
use globalmail.Prelude.Tests.{if◌then◌else◌}
use globalmail.Prelude.Equality.{Eq, ◌==◌, ==_refl}
use globalmail.Prelude.Lists.{In}
use globalmail.Prelude.Sorting.{insert_sorted, sort}

module _ {A : Type 0} ⦃e : Eq A⦄ where
  unfoldable pub contains : List A → A → Bool
  contains [] a = false
  contains (x ∷ xs) a = x == a || contains xs a

  contains→In : (xs : List A) (a : A) → contains xs a ≡ true → In a xs
  unfolding contains
  contains→In [] a h = cc
  contains→In (x ∷ xs) a h = ground (arith, e.beq_iff x a, contains→In xs a)

  In→contains : (xs : List A) (a : A) → In a xs → contains xs a ≡ true
  unfolding contains
  In→contains [] a m = absurd (m tt)
  In→contains (x ∷ xs) a (inl p) = ground (arith, e.beq_iff x a)
  In→contains (x ∷ xs) a (inr m) = ground (arith, In→contains xs a m)

  pub contains_iff : (xs : List A) (a : A) → (contains xs a ≡ true) ↔ In a xs
  contains_iff xs a = (contains→In xs a, In→contains xs a)

  pub contains-append :
      (xs ys : List A) (a : A) → contains (xs ++ ys) a ≡ (contains xs a || contains ys a)
  unfolding contains
  contains-append [] ys a = refl
  contains-append (x ∷ xs) ys a = ground (arith, contains-append xs ys a)

  pub contains-insert_sorted :
      (less : A → A → Bool) (x : A) (xs : List A) (a : A)
      → contains (insert_sorted less x xs) a ≡ (x == a || contains xs a)
  unfolding contains insert_sorted
  contains-insert_sorted less x [] a = refl
  contains-insert_sorted less x (y ∷ ys) a = ground (arith, contains-insert_sorted less x ys a)

  pub contains-sort :
      (less : A → A → Bool) (xs : List A) (a : A) → contains (sort less xs) a ≡ contains xs a
  unfolding contains sort
  contains-sort less [] a = refl
  contains-sort less (x ∷ xs) a =
      ground (arith, contains-insert_sorted less x (sort less xs) a, contains-sort less xs a)

  -- No element stands twice.
  abbrev pub IsDistinct : List A → Type 0
  IsDistinct [] = Unit
  IsDistinct (x ∷ xs) = (contains xs x ≡ false) × IsDistinct xs

  pub insert_sorted-IsDistinct :
      (less : A → A → Bool) (x : A) (xs : List A)
      → contains xs x ≡ false
      → IsDistinct xs
      → IsDistinct (insert_sorted less x xs)
  unfolding contains insert_sorted
  insert_sorted-IsDistinct less x [] h d = (refl, tt)
  insert_sorted-IsDistinct less x (y ∷ ys) h d = ground (
    arith,
    insert_sorted-IsDistinct less x ys,
    contains-insert_sorted less x ys y,
    e.beq_iff x y,
    e.beq_iff y x,
  )

  pub sort-IsDistinct :
      (less : A → A → Bool) (xs : List A) → IsDistinct xs → IsDistinct (sort less xs)
  unfolding sort
  sort-IsDistinct less [] d = tt
  sort-IsDistinct less (x ∷ xs) d =
      insert_sorted-IsDistinct less x (sort less xs) (contains-sort less xs x ∙ d.0)
        (sort-IsDistinct less xs d.1)

  -- The elements of the second list that are not in the first, each once, in order.
  unfoldable pub dedup : List A → List A → List A
  unfolding contains
  dedup seen [] = []
  dedup seen (x ∷ xs) =
      let kept = x ∷ dedup (x ∷ seen) xs in
      let skipped = dedup seen xs in if contains seen x then skipped else kept

  pub contains-dedup :
      (seen xs : List A) (a : A)
      → contains (dedup seen xs) a ≡ (contains xs a && not (contains seen a))
  unfolding contains dedup
  contains-dedup seen [] a = refl
  contains-dedup seen (x ∷ xs) a =
      ground (arith, contains-dedup seen xs a, contains-dedup (x ∷ seen) xs a, e.beq_iff x a)

  pub dedup-IsDistinct : (seen xs : List A) → IsDistinct (dedup seen xs)
  unfolding contains dedup
  dedup-IsDistinct seen [] = tt
  dedup-IsDistinct seen (x ∷ xs) = ground (
    arith,
    dedup-IsDistinct seen xs,
    dedup-IsDistinct (x ∷ seen) xs,
    contains-dedup (x ∷ seen) xs x,
    ==_refl x,
  )

  -- A list in which nothing stands is empty.
  pub eq-nil_of_contains : (xs : List A) → ((a : A) → contains xs a ≡ false) → xs ≡ []
  unfolding contains
  eq-nil_of_contains [] h = refl
  eq-nil_of_contains (x ∷ xs) h = ground (arith, h x, ==_refl x)
