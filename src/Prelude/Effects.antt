-- ===== src/Prelude/Effects.antt =====
-- A call that may fail and that reads and writes the world outside of the process. The world comes
-- back after an error too: what was written stays written.
use mathlib.Core.Path.{◌≡◌, refl}
use mathlib.Core.Option.{Option, none, some}
use mathlib.Core.Bool.{Bool}
use native.Mathlib.Omega.{arith}
use globalmail.Prelude.Tests.{if◌then◌else◌}

pub data Result (E A : Type 0) : Type 0 where
  ok : A → Result E A
  err : E → Result E A

abbrev pub Action : Type 0 → Type 0 → Type 0 → Type 0
Action W E A = W → Result E A × W

module _ {W E A : Type 0} where
  abbrev pub pure : A → Action W E A
  pure a w = (ok a, w)

  abbrev pub raise : E → Action W E A
  raise e w = (err e, w)

  abbrev pub or_raise : Option A → E → Action W E A
  or_raise none e = raise e
  or_raise (some a) e = pure a

infixl 5 ◌>>=◌ ◌>>◌
abbrev pub ◌>>=◌ : {W E A B : Type 0} → Action W E A → (A → Action W E B) → Action W E B
◌>>=◌ m f w = let (r, w') = m w in elim r [ ok a ↦ f a w' | err e ↦ (err e, w') ]

abbrev pub ◌>>◌ : {W E A B : Type 0} → Action W E A → Action W E B → Action W E B
m >> k = m >>= λ _. k

abbrev pub raise_if : {W E : Type 0} → Bool → E → Action W E (Unit {0})
raise_if c e w = (if c then err e else ok tt, w)

module _ {W E A B : Type 0} where
  -- A chain that succeeds went through its first step.
  pub >>=-eq-ok :
      (m : Action W E A) (f : A → Action W E B) (w w' : W) (b : B)
      → (m >>= f) w ≡ (ok b, w')
      → (a : A) × (w₁ : W) × (m w ≡ (ok a, w₁)) × (f a w₁ ≡ (ok b, w'))
  >>=-eq-ok m f w w' b h = through (m w) refl h
    where
      through :
          (r : Result E A × W)
          → m w ≡ r
          → (m >>= f) w ≡ (ok b, w')
          → (a : A) × (w₁ : W) × (m w ≡ (ok a, w₁)) × (f a w₁ ≡ (ok b, w'))
      through (ok a, w₁) e k = (a, w₁, e, ground (arith, e, k))
      through (err x, w₁) e k = absurd (ground (arith, e, k))
