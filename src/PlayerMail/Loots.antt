-- ===== src/PlayerMail/Loots.antt =====
-- app/playersrv/mail_service.go: the claimed loot indexes, and the loot at an index.
use globalmail.Prelude.{
  ℕ, ◌⊎◌, inl, inr, Option-cases, ◌≡◌, ◌↔◌, refl, ◌∙◌, false, not, ◌&&◌, ◌||◌, none, some, List, [],
  ◌∷◌, ◌++◌, All, contains, contains-append, contains-sort, dedup, contains-dedup, dedup-IsDistinct,
  IsDistinct, sort, sort-IsDistinct, IsSorted, IsOrder, sort-IsSorted, get_elem?,
  eq-nil_of_contains, arith, Result, ok, err, int_eq,
}
use globalmail.Prelude.Int.{ℤ, pos, negsuc, ltb_ℤ, ◌<ℤ◌}
use globalmail.Json.{RawMessage, empty, malformed, value, decode_items}
use globalmail.Types.{Error, loot_index_invalid, loot_index_out_of_range, decode_error}

unfoldable pub merge_loot_indexes : List ℤ → List ℤ → List ℤ
merge_loot_indexes existing next = sort ltb_ℤ (dedup [] (existing ++ next))

unfoldable pub new_loot_indexes : List ℤ → List ℤ → List ℤ
new_loot_indexes existing next = sort ltb_ℤ (dedup existing next)

-- The item at an index of the decoded array.
abbrev loot_in : List RawMessage → ℕ → Result Error RawMessage
loot_in items i = elim (get_elem? items i) [
  | some loot ↦ ok loot
  | none ↦ err loot_index_out_of_range
]

unfoldable pub loot_at_index : RawMessage → ℤ → Result Error RawMessage
loot_at_index loots (negsuc n) = err loot_index_invalid
loot_at_index empty (pos n) = ok empty
loot_at_index loots (pos n) = elim (decode_items loots) [
  | none ↦ err decode_error
  | some items ↦ loot_in items n
]

-- What a mail hands out at an index: the item of its array there, or nothing where it has no loots.
abbrev pub HandsOut : RawMessage → ℤ → RawMessage → Type 0
HandsOut loots i loot =
    ((n : ℕ) × (i ≡ pos n) × ((loots ≡ empty) × (loot ≡ empty)))
    ⊎ ((n : ℕ) × (items : List RawMessage) × ((i ≡ pos n)
          × ((decode_items loots ≡ some items) × (get_elem? items n ≡ some loot))))

contains_nil : (a : ℤ) → contains [] a ≡ false
unfolding contains
contains_nil a = refl

-- The merged indexes are those that stand in either list.
pub contains-merge_loot_indexes :
    (existing next : List ℤ) (a : ℤ)
    → contains (merge_loot_indexes existing next) a ≡ (contains existing a || contains next a)
unfolding merge_loot_indexes
contains-merge_loot_indexes existing next a = ground (
  arith,
  contains-sort ltb_ℤ (dedup [] (existing ++ next)) a,
  contains-dedup [] (existing ++ next) a,
  contains-append existing next a,
  contains_nil a,
)

-- The new indexes are those that are asked for and that are not among the existing ones.
pub contains-new_loot_indexes :
    (existing next : List ℤ) (a : ℤ)
    → contains (new_loot_indexes existing next) a ≡ (contains next a && not (contains existing a))
unfolding new_loot_indexes
contains-new_loot_indexes existing next a =
    contains-sort ltb_ℤ (dedup existing next) a ∙ contains-dedup existing next a

-- Each element is below all that follow it.
abbrev pub IsAscending : List ℤ → Type 0
IsAscending [] = Unit
IsAscending (x ∷ xs) = All (λ y. x <ℤ y) xs × IsAscending xs

ltb_ℤ-IsOrder : IsOrder ltb_ℤ
ltb_ℤ-IsOrder = record { asym = λ x y h. ground arith; chain = λ x y z h k. ground arith }

above :
    (x : ℤ) (xs : List ℤ)
    → All (λ y. ltb_ℤ y x ≡ false) xs
    → contains xs x ≡ false
    → All (λ y. x <ℤ y) xs
unfolding contains
above x [] s d = tt
above x (y ∷ ys) s d = (ground arith, above x ys s.1 (ground arith))

ascending : (xs : List ℤ) → IsSorted ltb_ℤ xs → IsDistinct xs → IsAscending xs
ascending [] s d = tt
ascending (x ∷ xs) s d = (above x xs s.0 d.0, ascending xs s.1 d.1)

-- Both lists come out in strictly rising order, so no index is granted or recorded twice.
pub loot_indexes-IsAscending :
    (existing next : List ℤ)
    → IsAscending (merge_loot_indexes existing next) × IsAscending (new_loot_indexes existing next)
unfolding merge_loot_indexes new_loot_indexes
loot_indexes-IsAscending existing next = (
  ascending _ (sort-IsSorted ltb_ℤ ltb_ℤ-IsOrder _)
      (sort-IsDistinct ltb_ℤ _ (dedup-IsDistinct [] (existing ++ next))),
  ascending _ (sort-IsSorted ltb_ℤ ltb_ℤ-IsOrder _)
      (sort-IsDistinct ltb_ℤ _ (dedup-IsDistinct existing next)),
)

-- Once a claim is recorded, a repeat of it has nothing left to grant.
pub claim_again_grants_nothing :
    (existing next : List ℤ) → new_loot_indexes (merge_loot_indexes existing next) next ≡ []
claim_again_grants_nothing existing next = eq-nil_of_contains _ λ a. ground (
  arith,
  contains-new_loot_indexes (merge_loot_indexes existing next) next a,
  contains-merge_loot_indexes existing next a,
)

loot_in-get_elem? :
    (items : List RawMessage) (n : ℕ) (loot : RawMessage)
    → loot_in items n ≡ ok loot
    → get_elem? items n ≡ some loot
loot_in-get_elem? items n loot h = ground arith

-- From a mail whose loots decode to an array, a loot is handed out exactly where the index is at
-- least 0 and within the array, and it is the array's item there.
loot_at_index_bounds :
    (loots loot : RawMessage) (i : ℤ) (items : List RawMessage)
    → decode_items loots ≡ some items
    → (loot_at_index loots i ≡ ok loot) ↔ ((n : ℕ) × (i ≡ pos n) × (get_elem? items n ≡ some loot))
unfolding loot_at_index decode_items
loot_at_index_bounds empty loot i items d = absurd (ground arith)
loot_at_index_bounds malformed loot i items d = absurd (ground arith)
loot_at_index_bounds (value j) loot (pos n) items d =
    (λ h. (n, refl, loot_in-get_elem? items n loot (ground arith)), λ (m, e, g). ground arith)
loot_at_index_bounds (value j) loot (negsuc n) items d = (λ h. cc, λ (m, e, g). cc)

pub loot_at_index-HandsOut :
    (loots loot : RawMessage) (i : ℤ) → loot_at_index loots i ≡ ok loot → HandsOut loots i loot
unfolding loot_at_index decode_items
loot_at_index-HandsOut loots loot (negsuc n) h = absurd (ground (arith, h))
loot_at_index-HandsOut empty loot (pos n) h = inl (n, refl, (refl, ground (arith, h)))
loot_at_index-HandsOut malformed loot (pos n) h = absurd (ground (arith, h))
loot_at_index-HandsOut (value j) loot (pos n) h = elim (Option-cases (decode_items (value j))) [
  | inl z ↦ absurd (ground (arith, h, z))
  | inr (items, z) ↦
      inr (n, items, (refl, (z, loot_in-get_elem? items n loot (ground (arith, h, z)))))
]
