-- ===== src/Redis/Version.antt =====
-- data/redis/repository.go: the global mail version. `Kv` is the Redis server as these calls see it:
-- `version` is what GET answers under the version's key, where a key that is not there is `none`, and
-- a command can fail.
use globalmail.Prelude.{
  ◌≡◌, Option, none, some, Result, ok, err, Action, pure, ◌>>=◌, ◌⊎◌, arith, if◌then◌else◌,
}
use globalmail.Prelude.Int.{ℤ, pos, ltb_ℤ, ◌≤ℤ◌}
use globalmail.Types.{Error}

-- `get` is GET read as an int64; `eval_advance` runs a script over the stored number as one step.
pub record Kv (W : Type 0) : Type 0 where
  pub version : W → Option ℤ
  pub get : Action W Error (Option ℤ)
  pub eval : (Option ℤ → ℤ × Option ℤ) → Action W Error ℤ

-- What the commands do when they succeed, and that a command that fails has not written.
pub record IsKv {W : Type 0} (kv : Kv W) : Type 0 where
  pub get_ok : (v : Option ℤ) (w w' : W) → kv.get w ≡ (ok v, w') → (v ≡ kv.version w) × (w' ≡ w)
  pub eval_ok :
      (f : Option ℤ → ℤ × Option ℤ) (v : ℤ) (w w' : W)
      → kv.eval f w ≡ (ok v, w')
      → (v ≡ (f (kv.version w)).0) × (kv.version w' ≡ (f (kv.version w)).1)
  pub eval_err :
      (f : Option ℤ → ℤ × Option ℤ) (e : Error) (w w' : W)
      → kv.eval f w ≡ (err e, w')
      → kv.version w' ≡ kv.version w

abbrev pub or_zero : Option ℤ → ℤ
or_zero none = pos 0
or_zero (some v) = v

-- The Lua script of `AdvanceGlobalMailVersion`: its answer and what it leaves stored.
unfoldable pub advance_script : ℤ → Option ℤ → ℤ × Option ℤ
advance_script target stored =
    if ltb_ℤ (or_zero stored) target then (target, some target) else (or_zero stored, stored)

module _ {W : Type 0} (kv : Kv W) where
  unfoldable pub get_global_mail_version : Action W Error ℤ
  get_global_mail_version = do stored ← kv.get; pure (or_zero stored)

  unfoldable pub advance_global_mail_version : ℤ → Action W Error ℤ
  unfolding advance_script
  advance_global_mail_version target = kv.eval (advance_script target)

  module _ (law : IsKv kv) where
    -- Advancing answers the version that then stands in Redis, which is the larger one of the
    -- target and of what stood there: the version never goes back.
    advance-max :
        (target v : ℤ) (w w' : W)
        → advance_global_mail_version target w ≡ (ok v, w')
        → (v ≡ or_zero (kv.version w'))
          × (or_zero (kv.version w) ≤ℤ v)
          × (target ≤ℤ v)
          × ((kv.version w' ≡ kv.version w) ⊎ (v ≡ target))
    unfolding advance_global_mail_version advance_script
    advance-max target v w w' h =
        let l = law.eval_ok (advance_script target) v w w' h in ground (arith, l)

    -- A target that is not above the version leaves the version as it was.
    pub advance-stalls :
        (target : ℤ) (r : Result Error ℤ) (w w' : W)
        → target ≤ℤ or_zero (kv.version w)
        → advance_global_mail_version target w ≡ (r, w')
        → kv.version w' ≡ kv.version w
    unfolding advance_global_mail_version advance_script
    advance-stalls target (ok v) w w' old h =
        let l = law.eval_ok (advance_script target) v w w' h in ground (arith, l, old)
    advance-stalls target (err e) w w' old h = law.eval_err (advance_script target) e w w' h
