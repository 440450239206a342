-- ===== src/Base/Eq.antt =====
-- Equality tests by instances: `===` on numbers, texts and nullable values.
use Prim.Native.Nat.{ℕ}
use Prim.Native.String.{String}
use mathlib.Core.Path.{◌≡◌, refl, ap}
use mathlib.Core.Logic.{◌↔◌}
use mathlib.Core.Bool.{Bool, true, false}
use mathlib.Core.Option.{Option, none, some}
use native.Mathlib.Omega.{arith}
use text.Mathlib.Text.{◌==◌ as str_eq}
use text.Mathlib.TextEquality.{eq_iff}
use symphony_ts.Base.Tests.{nat_beq, nat_beq_iff}

-- A test `same` that holds exactly of equal values.
pub record HasEq {ℓ} (T : Type ℓ) : Type ℓ where
  pub same : T → T → Bool
  pub same_iff : (x y : T) → (same x y ≡ true) ↔ (x ≡ y)

instance abbrev pub string_eq : HasEq String
string_eq = record { same = str_eq; same_iff = eq_iff }

instance abbrev pub nat_eq : HasEq ℕ
nat_eq = record { same = nat_beq; same_iff = nat_beq_iff }

infix 50 ◌==◌
abbrev pub ◌==◌ {ℓ} : {T : Type ℓ} ⦃e : HasEq T⦄ → T → T → Bool
◌==◌ {T} ⦃e⦄ x y = e.same x y

module _ {ℓ} {A : Type ℓ} ⦃e : HasEq A⦄ where
  abbrev pub option_beq : Option A → Option A → Bool
  option_beq none none = true
  option_beq (some a) (some b) = e.same a b
  option_beq _ _ = false

  pub option_beq_iff : (a b : Option A) → (option_beq a b ≡ true) ↔ (a ≡ b)
  option_beq_iff none none = (λ _. refl, λ _. refl)
  option_beq_iff none (some b) = (λ h. cc, λ h. cc)
  option_beq_iff (some a) none = (λ h. cc, λ h. cc)
  option_beq_iff (some a) (some b) =
      (λ h. ap some ((e.same_iff a b).0 h), λ h. (e.same_iff a b).1 (ground arith))

  instance abbrev pub option_eq : HasEq (Option A)
  option_eq = record { same = option_beq; same_iff = option_beq_iff }

  pub beq_refl : (a : A) → (a == a) ≡ true
  beq_refl a = (e.same_iff a a).1 refl
