-- ===== src/Base/Text/Reading.antt =====
-- Reading a decimal number and a prefix in any case, and that a shown number is read back.
use Prim.Native.Nat.{ℕ, zero, suc, ◌+◌, ◌-◌, ◌*◌, ◌/◌, ◌%◌, ◌<◌}
use Prim.Native.Char.{Char, code}
use Prim.Native.String
use Prim.Native.String.{String}
use Prim.Native.String.append
use mathlib.Core.Path.{◌≡◌, refl, ap, ◌∙◌}
use mathlib.Core.Logic.{inl, inr}
use mathlib.Core.Bool.{true, ◌&&◌}
use mathlib.Core.Option.{Option, none, some}
use native.Mathlib.Omega.{arith}
use symphony_ts.Base.Tests.{nat_beq, leb, ltb, ltb→lt, if◌then◌else◌, Bool-cases}
use symphony_ts.Base.Lines.{is_white, is_visible, is_empty, trim_start, append-cons, append-nil}
use symphony_ts.Base.Text.Digits.{show-visible, show-full}
use symphony_ts.Base.Text.{digit, show, show_from}

-- The code of a letter of ASCII in lower case, and of any other character as it is.
abbrev pub lower_code : Char → ℕ
lower_code c = let n = code c in if leb 65 n && leb n 90 then n + 32 else n

-- What follows a prefix, whose letters of ASCII may be in any case.
unfoldable pub after_prefix : String → String → Option String
after_prefix String.[] s = some s
after_prefix (String.◌∷◌ p ps) String.[] = none
after_prefix (String.◌∷◌ p ps) (String.◌∷◌ c s) =
    let rest = after_prefix ps s in if nat_beq (lower_code p) (lower_code c) then rest else none

-- The number of a text that is all digits, after the number of the digits before it.
unfoldable pub read_digits : ℕ → String → Option ℕ
read_digits before String.[] = some before
read_digits before (String.◌∷◌ c s) =
    let rest = read_digits (before * 10 + (code c - 48)) s in
    if leb 48 (code c) && leb (code c) 57 then rest else none

after_prefix-append :
    (p s r t : String)
    → after_prefix p s ≡ some r
    → after_prefix p (String.◌++◌ s t) ≡ some (String.◌++◌ r t)
unfolding after_prefix
after_prefix-append String.[] s r t h = ground arith
after_prefix-append (String.◌∷◌ p ps) String.[] r t h = cc
after_prefix-append (String.◌∷◌ p ps) (String.◌∷◌ c s) r t h =
    let rest = after_prefix-append ps s r t in rw (append-cons c s t) (ground arith)

record IsDigit (d : ℕ) (s : String) : Type 0 where
  char : Char
  same : s ≡ String.◌∷◌ char String.[]
  value : code char ≡ 48 + d

digit-IsDigit : (d : ℕ) → d < 10 → IsDigit d (digit d)
unfolding digit
digit-IsDigit zero h = record { char = String.char_at "0" 0; same = refl; value = refl }
digit-IsDigit (suc zero) h = record { char = String.char_at "1" 0; same = refl; value = refl }
digit-IsDigit (suc (suc zero)) h = record { char = String.char_at "2" 0; same = refl; value = refl }
digit-IsDigit (suc (suc (suc zero))) h = record {
  char = String.char_at "3" 0;
  same = refl;
  value = refl;
}
digit-IsDigit (suc (suc (suc (suc zero)))) h = record {
  char = String.char_at "4" 0;
  same = refl;
  value = refl;
}
digit-IsDigit (suc (suc (suc (suc (suc zero))))) h = record {
  char = String.char_at "5" 0;
  same = refl;
  value = refl;
}
digit-IsDigit (suc (suc (suc (suc (suc (suc zero)))))) h = record {
  char = String.char_at "6" 0;
  same = refl;
  value = refl;
}
digit-IsDigit (suc (suc (suc (suc (suc (suc (suc zero))))))) h = record {
  char = String.char_at "7" 0;
  same = refl;
  value = refl;
}
digit-IsDigit (suc (suc (suc (suc (suc (suc (suc (suc zero)))))))) h = record {
  char = String.char_at "8" 0;
  same = refl;
  value = refl;
}
digit-IsDigit (suc (suc (suc (suc (suc (suc (suc (suc (suc zero))))))))) h = record {
  char = String.char_at "9" 0;
  same = refl;
  value = refl;
}
digit-IsDigit (suc (suc (suc (suc (suc (suc (suc (suc (suc (suc d)))))))))) h =
    elim (too_large d h) [ ]
  where
    too_large : (d : ℕ) → suc (suc (suc (suc (suc (suc (suc (suc (suc (suc d))))))))) < 10 → ⊥
    too_large d h = omega arith

read_digits-append :
    (before : ℕ) (s : String) (v d : ℕ)
    → d < 10
    → read_digits before s ≡ some v
    → read_digits before (String.◌++◌ s (digit d)) ≡ some (v * 10 + d)
unfolding read_digits
read_digits-append before String.[] v d h e =
    let is = digit-IsDigit d h in
    let value = is.value in ap (read_digits before) (append-nil (digit d) ∙ is.same) ∙ ground arith
read_digits-append before (String.◌∷◌ c s) v d h e =
    let rest = read_digits-append (before * 10 + (code c - 48)) s v d h in
    rw (append-cons c s (digit d)) (ground arith)

read-digit : (d : ℕ) → d < 10 → read_digits 0 (digit d) ≡ some d
unfolding read_digits
read-digit d h =
    let is = digit-IsDigit d h in let value = is.value in ap (read_digits 0) is.same ∙ ground arith

read-show_from : (fuel n : ℕ) → n < fuel → read_digits 0 (show_from fuel n) ≡ some n
unfolding show_from
read-show_from zero n h = absurd (omega arith)
read-show_from (suc fuel) n h = elim (Bool-cases (ltb n 10)) [
  | inl e ↦ rw e (read-digit n (ltb→lt n 10 e))
  | inr e ↦ rw e (
      read_digits-append 0 (show_from fuel (n / 10)) (n / 10) (n % 10) (omega arith)
        (read-show_from fuel (n / 10) (ground arith))
      ∙ ap some (omega arith))
]

-- A shown number is read back.
pub read-show : (n : ℕ) → read_digits 0 (show n) ≡ some n
unfolding show
read-show n = read-show_from (suc n) n (omega arith)

trim_start-visible : (s : String) → is_visible s ≡ true → trim_start s ≡ s
unfolding trim_start
trim_start-visible String.[] h = refl
trim_start-visible (String.◌∷◌ c s) h = ground arith

trim_start-space : (s : String) → is_visible s ≡ true → trim_start (String.◌++◌ " " s) ≡ s
unfolding trim_start is_white
trim_start-space s h =
    rw (append-cons (String.char_at " " 0) "" s, append-nil s) (trim_start-visible s h)

-- The text after a prefix, without the white space that it starts with, as a number.
abbrev number_in : Option String → Option ℕ
number_in none = none
number_in (some rest) =
    let digits = trim_start rest in if is_empty digits then none else read_digits 0 digits

unfoldable pub number_after : String → String → Option ℕ
unfolding after_prefix read_digits trim_start
number_after label text = number_in (after_prefix label text)

pub number_after-show :
    (label start : String) (n : ℕ)
    → after_prefix label start ≡ some " "
    → number_after label (String.◌++◌ start (show n)) ≡ some n
unfolding number_after
number_after-show label start n h =
    let text = trim_start-space (show n) (show-visible n) in
    let full = show-full n in
    ap number_in (after_prefix-append label start " " (show n) h) ∙ rw text (rw full (read-show n))
