-- ===== src/Tests/Stores.antt =====
-- Stores for the tests: a table as the list of its writes, and a table that keeps nothing.
use globalmail.Prelude.{
  ◌≡◌, refl, Bool, true, false, Option, none, some, List, [], ◌∷◌, Action, ok, err, Eq, ◌==◌, arith,
  if◌then◌else◌,
}
use globalmail.Types.{Error, external}
use globalmail.Mysql.Table.{Table, IsTable, or_row, updated}

module _ {K Row : Type 0} ⦃e : Eq K⦄ (key : Row → K) (kept : Row → Row) where
  -- The newest write of a key counts, as far as the columns keep it.
  unfoldable pub find : List Row → K → Option Row
  find [] k = none
  find (r ∷ rs) k = if key r == k then some (kept r) else find rs k

  -- A write that would change the key is refused.
  abbrev pub rewrite_row : K → (Row → Row) → Option Row → Action (List Row) Error (Unit {0})
  rewrite_row k f none d = (ok tt, d)
  rewrite_row k f (some r) d = if key (f r) == k then (ok tt, f r ∷ d) else (err (external 1), d)

  abbrev pub insert_or : Row → Option Row → Action (List Row) Error Bool
  insert_or r none d = (ok true, r ∷ d)
  insert_or r (some old) d = (ok false, d)

  abbrev pub insert_only : Row → Option Row → Action (List Row) Error (Unit {0})
  insert_only r none d = (ok tt, r ∷ d)
  insert_only r (some old) d = (err (external 2), d)

  abbrev pub upsert : Row → (Row → Row) → Option Row → Action (List Row) Error (Unit {0})
  upsert r f o d =
      if key (or_row r f o) == key r then (ok tt, or_row r f o ∷ d) else (err (external 3), d)

  -- The statements over many rows are not used.
  abbrev pub listed : Table (List Row) K Row
  listed = record {
    key = key;
    kept = kept;
    rows = find;
    first = λ k d. (ok (find d k), d);
    select = λ p n d. (err (external 4), d);
    create = λ r d. insert_only r (find d (key r)) d;
    create_or_ignore = λ r d. insert_or r (find d (key r)) d;
    create_or_update = λ r f d. upsert r f (find d (key r)) d;
    update = λ k f d. rewrite_row k f (find d k) d;
    update_in = λ ks f d. (err (external 5), d);
  }

  module _ (same_key : (r : Row) → key (kept r) ≡ key r)
      (twice : (r : Row) → kept (kept r) ≡ kept r) where
    find-keyed : (k : K) (d : List Row) (r : Row) → find d k ≡ some r → key r ≡ k
    unfolding find
    find-keyed k [] r h = absurd (ground arith)
    find-keyed k (x ∷ xs) r h =
        ground (arith, find-keyed k xs r, e.beq_iff (key x) k, h, same_key x)

    find-kept : (k : K) (d : List Row) (r : Row) → find d k ≡ some r → kept r ≡ r
    unfolding find
    find-kept k [] r h = absurd (ground arith)
    find-kept k (x ∷ xs) r h = ground (arith, find-kept k xs r, h, twice x)

    update_lem :
        (k : K) (f : Row → Row) (d d' : List Row) (o : Option Row)
        → find d k ≡ o
        → rewrite_row k f o d ≡ (ok tt, d')
        → (j : K) → find d' j ≡ (if k == j then updated (λ r. kept (f r)) o else find d j)
    unfolding find
    update_lem k f d d' none q h j = ground (arith, e.beq_iff k j)
    update_lem k f d d' (some r) q h j = ground (arith, e.beq_iff (key (f r)) k)

    pub listed-IsTable : IsTable listed
    unfolding find
    listed-IsTable = record {
      keyed = find-keyed;
      kept_row = λ k d r h. find-kept k d r h;
      first_ok = λ k d d' o h. ground arith;
      select_ok = λ p n d d' rs h. absurd (ground arith);
      create_ok = λ r d d' h. (ground arith, λ j. ground arith);
      create_or_ignore_new = λ r d d' h. (ground arith, λ j. ground arith);
      create_or_ignore_old = λ r d d' h. (λ q. ground arith, λ j. ground arith);
      create_or_update_ok =
          λ r f d d' h. λ j. ground (arith, e.beq_iff (key (or_row r f (find d (key r)))) (key r));
      update_ok = λ k f d d' h j. update_lem k f d d' (find d k) refl h j;
      update_in_ok = λ ks f d d' h. absurd (ground arith);
      failed = λ r f k x d d'.
          (λ h j. ground arith, λ h j. ground arith, λ h j. ground arith, λ h j. ground arith);
    }

-- A table that keeps nothing, beside whatever the database holds.
abbrev pub forgetful : {D K Row : Type 0} → (Row → K) → Table D K Row
forgetful key = record {
  key = key;
  kept = λ r. r;
  rows = λ d k. none;
  first = λ k d. (ok none, d);
  select = λ p n d. (ok [], d);
  create = λ r d. (ok tt, d);
  create_or_ignore = λ r d. (ok true, d);
  create_or_update = λ r f d. (ok tt, d);
  update = λ k f d. (ok tt, d);
  update_in = λ ks f d. (ok tt, d);
}
