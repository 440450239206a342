-- ===== src/Base/Text.antt =====
-- Texts: template literals are `cat` chains, `Number.prototype.toString` on a natural number, `join`.
pub mod Digits
pub mod Reading
use Prim.Native.Nat.{ℕ, zero, suc, ◌+◌, ◌-◌, ◌/◌, ◌%◌}
use Prim.Native.String
use Prim.Native.String.{String, slice, len, find}
use mathlib.Core.Path.{◌≡◌, refl}
use mathlib.Core.List.{List, [], ◌∷◌}
use mathlib.Core.Bool.{Bool, true, false}
use text.Mathlib.Text.{◌==◌}
use symphony_ts.Base.Tests.{ltb, leb, if◌then◌else◌}

-- The parts of a template literal, joined.
unfoldable pub cat : List String → String
cat [] = ""
cat (s ∷ ss) = String.◌++◌ s (cat ss)

unfoldable pub join : String → List String → String
join sep [] = ""
join sep (s ∷ []) = s
join sep (s ∷ t ∷ ss) = String.◌++◌ s (String.◌++◌ sep (join sep (t ∷ ss)))

digit : ℕ → String
digit d = slice "0123456789" d (d + 1)

-- Fuel is the number itself, plus one: it falls in each round.
show_from : ℕ → ℕ → String
show_from zero n = ""
show_from (suc fuel) n =
    let rest = show_from fuel (n / 10) in
    if ltb n 10 then digit n else String.◌++◌ rest (digit (n % 10))

unfoldable pub show : ℕ → String
unfolding show_from digit
show n = show_from (suc n) n

show_runs : show 1207 ≡ "1207"
unfolding show
show_runs = refl

-- `String.prototype.endsWith`, and the text without that end.
unfoldable pub ends_with : String → String → Bool
ends_with s end = slice s (len s - len end) (len s) == end

unfoldable pub without_end : String → ℕ → String
without_end s bytes = slice s 0 (len s - bytes)

-- `String.prototype.includes`
unfoldable pub includes : String → String → Bool
includes s part = leb (find s part) (len s)

ends_runs : (ends_with "devin[bot]" "[bot]" ≡ true) × (without_end "devin[bot]" 5 ≡ "devin")
unfolding ends_with without_end
ends_runs = (refl, refl)

includes_runs : (includes "a<!-- x -->" "<!-- x" ≡ true) × (includes "ab" "abc" ≡ false)
unfolding includes
includes_runs = (refl, refl)
