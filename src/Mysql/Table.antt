-- ===== src/Mysql/Table.antt =====
-- One table as the repositories use it through gorm: statements by primary key or by a condition.
-- The statements and their laws are parameters. The laws are what MySQL documents of a statement: it
-- does all of its work or, with an error, none. `rows` is what a SELECT by primary key would see.
-- `kept` is what the columns keep of a row that is written: a DATETIME is rounded to its precision,
-- and JSON comes back in MySQL's normal form.
use globalmail.Prelude.{
  ℕ, ◌≡◌, ◌≢◌, ◌≤◌, Bool, true, false, Option, none, some, List, All, length, Action, ok, err, Eq,
  ◌==◌, contains, if◌then◌else◌,
}
use globalmail.Types.{Error}

pub record Table (D K Row : Type 0) : Type 0 where
  pub key : Row → K
  pub kept : Row → Row
  pub rows : D → K → Option Row
  -- SELECT … WHERE key = ? LIMIT 1; a missing row is `none`
  pub first : K → Action D Error (Option Row)
  -- SELECT … WHERE p ORDER BY key, with LIMIT n if a limit is given
  pub select : (Row → Bool) → Option ℕ → Action D Error (List Row)
  -- INSERT
  pub create : Row → Action D Error (Unit {0})
  -- INSERT … ON CONFLICT DO NOTHING; the result says whether a row was written
  pub create_or_ignore : Row → Action D Error Bool
  -- INSERT … ON DUPLICATE KEY UPDATE
  pub create_or_update : Row → (Row → Row) → Action D Error (Unit {0})
  -- UPDATE … WHERE key = ?
  pub update : K → (Row → Row) → Action D Error (Unit {0})
  -- UPDATE … WHERE key IN (…)
  pub update_in : List K → (Row → Row) → Action D Error (Unit {0})

-- The rows are those of before.
abbrev pub Same : {D K Row : Type 0} → Table D K Row → D → D → Type 0
Same {K} t d d' = (k : K) → t.rows d' k ≡ t.rows d k

-- The rows are those of before, but for the one of the key.
abbrev pub Puts : {D K Row : Type 0} ⦃e : Eq K⦄ → Table D K Row → K → Option Row → D → D → Type 0
Puts {K} t k row d d' = (j : K) → t.rows d' j ≡ (if k == j then row else t.rows d j)

abbrev pub or_row : {Row : Type 0} → Row → (Row → Row) → Option Row → Row
or_row r f none = r
or_row r f (some old) = f old

abbrev pub updated : {Row : Type 0} → (Row → Row) → Option Row → Option Row
updated f none = none
updated f (some old) = some (f old)

abbrev pub Within : {Row : Type 0} → Option ℕ → List Row → Type 0
Within none rs = Unit
Within (some n) rs = length rs ≤ n

pub record IsTable {D K Row : Type 0} ⦃e : Eq K⦄ (t : Table D K Row) : Type 0 where
  pub keyed : (k : K) (d : D) (r : Row) → t.rows d k ≡ some r → t.key r ≡ k
  -- What stands in the table is kept as it is.
  pub kept_row : (k : K) (d : D) (r : Row) → t.rows d k ≡ some r → t.kept r ≡ r
  pub first_ok :
      (k : K) (d d' : D) (o : Option Row)
      → t.first k d ≡ (ok o, d')
      → (o ≡ t.rows d k) × Same t d d'
  pub select_ok :
      (p : Row → Bool) (n : Option ℕ) (d d' : D) (rs : List Row)
      → t.select p n d ≡ (ok rs, d')
      → All (λ r. (t.rows d (t.key r) ≡ some r) × (p r ≡ true)) rs × Within n rs × Same t d d'
  pub create_ok :
      (r : Row) (d d' : D)
      → t.create r d ≡ (ok tt, d')
      → (t.rows d (t.key r) ≡ none) × Puts t (t.key r) (some (t.kept r)) d d'
  pub create_or_ignore_new :
      (r : Row) (d d' : D)
      → t.create_or_ignore r d ≡ (ok true, d')
      → (t.rows d (t.key r) ≡ none) × Puts t (t.key r) (some (t.kept r)) d d'
  pub create_or_ignore_old :
      (r : Row) (d d' : D)
      → t.create_or_ignore r d ≡ (ok false, d')
      → (t.rows d (t.key r) ≢ none) × Same t d d'
  pub create_or_update_ok :
      (r : Row) (f : Row → Row) (d d' : D)
      → t.create_or_update r f d ≡ (ok tt, d')
      → Puts t (t.key r) (some (t.kept (or_row r f (t.rows d (t.key r))))) d d'
  pub update_ok :
      (k : K) (f : Row → Row) (d d' : D)
      → t.update k f d ≡ (ok tt, d')
      → Puts t k (updated (λ r. t.kept (f r)) (t.rows d k)) d d'
  pub update_in_ok :
      (ks : List K) (f : Row → Row) (d d' : D)
      → t.update_in ks f d ≡ (ok tt, d')
      → (j : K)
      → t.rows d' j
        ≡ (if contains ks j then updated (λ r. t.kept (f r)) (t.rows d j) else t.rows d j)
  pub failed :
      (r : Row) (f : Row → Row) (k : K) (x : Error) (d d' : D)
      → (t.create_or_ignore r d ≡ (err x, d') → Same t d d')
        × (t.create_or_update r f d ≡ (err x, d') → Same t d d')
        × (t.update k f d ≡ (err x, d') → Same t d d')
        × (t.first k d ≡ (err x, d') → Same t d d')
