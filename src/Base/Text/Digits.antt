-- ===== src/Base/Text/Digits.antt =====
-- A shown number is a text of visible characters, not empty.
use Prim.Native.Nat.{ℕ, zero, suc, ◌%◌, ◌<◌}
use Prim.Native.String.{String}
use mathlib.Core.Path.{◌≡◌, refl}
use mathlib.Core.Logic.{inl, inr}
use mathlib.Core.Bool.{true, false}
use native.Mathlib.Omega.{arith}
use symphony_ts.Base.Tests.{ltb, ltb→lt, Bool-cases}
use symphony_ts.Base.Lines.{is_white, is_visible, is_empty, is_visible-append, is_empty-append}
use symphony_ts.Base.Text.{digit, show, show_from}

record IsDigit (s : String) : Type 0 where
  visible : is_visible s ≡ true
  full : is_empty s ≡ false

digit-IsDigit : (d : ℕ) → d < 10 → IsDigit (digit d)
unfolding digit is_white
digit-IsDigit zero h = record { visible = refl; full = refl }
digit-IsDigit (suc zero) h = record { visible = refl; full = refl }
digit-IsDigit (suc (suc zero)) h = record { visible = refl; full = refl }
digit-IsDigit (suc (suc (suc zero))) h = record { visible = refl; full = refl }
digit-IsDigit (suc (suc (suc (suc zero)))) h = record { visible = refl; full = refl }
digit-IsDigit (suc (suc (suc (suc (suc zero))))) h = record { visible = refl; full = refl }
digit-IsDigit (suc (suc (suc (suc (suc (suc zero)))))) h = record { visible = refl; full = refl }
digit-IsDigit (suc (suc (suc (suc (suc (suc (suc zero))))))) h = record {
  visible = refl;
  full = refl;
}
digit-IsDigit (suc (suc (suc (suc (suc (suc (suc (suc zero)))))))) h = record {
  visible = refl;
  full = refl;
}
digit-IsDigit (suc (suc (suc (suc (suc (suc (suc (suc (suc zero))))))))) h = record {
  visible = refl;
  full = refl;
}
digit-IsDigit (suc (suc (suc (suc (suc (suc (suc (suc (suc (suc d)))))))))) h =
    elim (too_large d h) [ ]
  where
    too_large : (d : ℕ) → suc (suc (suc (suc (suc (suc (suc (suc (suc (suc d))))))))) < 10 → ⊥
    too_large d h = omega arith

show_from-visible : (fuel n : ℕ) → is_visible (show_from fuel n) ≡ true
unfolding show_from
show_from-visible zero n = refl
show_from-visible (suc fuel) n = elim (Bool-cases (ltb n 10)) [
  | inl e ↦ rw e (digit-IsDigit n (ltb→lt n 10 e)).visible
  | inr e ↦ rw e (
      is_visible-append _ (digit (n % 10)) (show_from-visible fuel _)
        (digit-IsDigit (n % 10) (omega arith)).visible)
]

pub show-visible : (n : ℕ) → is_visible (show n) ≡ true
unfolding show
show-visible n = show_from-visible (suc n) n

pub show-full : (n : ℕ) → is_empty (show n) ≡ false
unfolding show show_from
show-full n = elim (Bool-cases (ltb n 10)) [
  | inl e ↦ rw e (digit-IsDigit n (ltb→lt n 10 e)).full
  | inr e ↦ rw e (is_empty-append _ (digit (n % 10)) (digit-IsDigit (n % 10) (omega arith)).full)
]
