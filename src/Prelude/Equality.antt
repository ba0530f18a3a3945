-- ===== src/Prelude/Equality.antt =====
-- Equality as an interface, for map keys and for the comparisons of the source.
use Prim.Native.Nat.{ℕ}
use Prim.Native.String.{String}
use mathlib.Core.Path.{◌≡◌, refl}
use mathlib.Core.Logic.{◌↔◌, ◌≢◌, ◌⊎◌, inl, inr}
use mathlib.Core.Bool.{Bool, true, false, ◌&&◌}
use text.Mathlib.Text.{◌==◌ as str_eq}
use text.Mathlib.TextEquality.{eq_iff}
use native.Mathlib.Omega.{arith}
use globalmail.Prelude.Tests.{nat_beq, nat_beq_iff, Bool-cases}
use globalmail.Prelude.Int.{ℤ, eqb_ℤ, eqb_ℤ_iff}

-- A Boolean test that decides equality.
pub record Eq {ℓ} (K : Type ℓ) : Type ℓ where
  pub beq : K → K → Bool
  pub beq_iff : (x y : K) → (beq x y ≡ true) ↔ (x ≡ y)

instance abbrev pub string_eq : Eq String
string_eq = record { beq = str_eq; beq_iff = eq_iff }

instance abbrev pub int_eq : Eq ℤ
int_eq = record { beq = eqb_ℤ; beq_iff = eqb_ℤ_iff }

instance abbrev pub nat_eq : Eq ℕ
nat_eq = record { beq = nat_beq; beq_iff = nat_beq_iff }

infix 50 ◌==◌
abbrev pub ◌==◌ {ℓ} : {K : Type ℓ} ⦃test : Eq K⦄ → K → K → Bool
◌==◌ ⦃test = given⦄ k j = given.beq k j

module _ {ℓ} {A : Type ℓ} ⦃e : Eq A⦄ where
  pub ==_refl : (a : A) → (a == a) ≡ true
  ==_refl a = (e.beq_iff a a).1 refl

  pub ==_sym : (a b : A) → (a == b) ≡ (b == a)
  ==_sym a b = ground (arith, e.beq_iff a b, e.beq_iff b a)

  pub ==_cases : (a b : A) → ((a ≡ b) × ((a == b) ≡ true)) ⊎ ((a ≢ b) × ((a == b) ≡ false))
  ==_cases a b = elim (Bool-cases (a == b)) [
    | inl h ↦ inl ((e.beq_iff a b).0 h, h)
    | inr h ↦ inr (λ p. ground (arith, (e.beq_iff a b).1 p), h)
  ]

-- Keys of two and of three numbers.
abbrev pub pair_beq : ℤ × ℤ → ℤ × ℤ → Bool
pair_beq a b = eqb_ℤ a.0 b.0 && eqb_ℤ a.1 b.1

pub pair_beq_iff : (a b : ℤ × ℤ) → (pair_beq a b ≡ true) ↔ (a ≡ b)
pair_beq_iff (a, b) (c, d) = (
  λ h. ground (arith, eqb_ℤ_iff a c, eqb_ℤ_iff b d),
  λ h. ground (arith, eqb_ℤ_iff a c, eqb_ℤ_iff b d),
)

instance abbrev pub pair_eq : Eq (ℤ × ℤ)
pair_eq = record { beq = pair_beq; beq_iff = pair_beq_iff }

abbrev pub triple_beq : ℤ × ℤ × ℤ → ℤ × ℤ × ℤ → Bool
triple_beq a b = eqb_ℤ a.0 b.0 && (eqb_ℤ a.1 b.1 && eqb_ℤ a.2 b.2)

pub triple_beq_iff : (a b : ℤ × ℤ × ℤ) → (triple_beq a b ≡ true) ↔ (a ≡ b)
triple_beq_iff (a, b, c) (x, y, z) = (
  λ h. ground (arith, eqb_ℤ_iff a x, eqb_ℤ_iff b y, eqb_ℤ_iff c z),
  λ h. ground (arith, eqb_ℤ_iff a x, eqb_ℤ_iff b y, eqb_ℤ_iff c z),
)

instance abbrev pub triple_eq : Eq (ℤ × ℤ × ℤ)
triple_eq = record { beq = triple_beq; beq_iff = triple_beq_iff }
