-- ===== src/Base/Lines.antt =====
-- `split(/\r?\n/u)` and `trim()` of texts, by their characters.
use Prim.Native.Char.{Char, code}
use Prim.Native.String
use Prim.Native.String.{String, slice}
use Prim.Native.String.append
use mathlib.Core.Path.{◌≡◌, refl, ap, ◌∙◌}
use mathlib.Core.Bool.{Bool, true, false, not, ◌&&◌, ◌||◌}
use mathlib.Core.List.{List, [], ◌∷◌}
use native.Mathlib.Omega.{arith}
use symphony_ts.Base.Tests.{nat_beq, leb, if◌then◌else◌}

abbrev pub is_newline : Char → Bool
is_newline c = nat_beq (code c) 10

abbrev is_return : Char → Bool
is_return c = nat_beq (code c) 13

abbrev pub is_empty : String → Bool
is_empty String.[] = true
is_empty (String.◌∷◌ c s) = false

abbrev starts_line_end : String → Bool
starts_line_end String.[] = false
starts_line_end (String.◌∷◌ c s) = is_newline c

-- The character at the head of the first line.
abbrev prepend : Char → List String → List String
prepend c [] = String.◌∷◌ c String.[] ∷ []
prepend c (line ∷ lines) = String.◌∷◌ c line ∷ lines

-- A return is part of the line end where a newline follows it.
unfoldable pub split_lines : String → List String
split_lines String.[] = "" ∷ []
split_lines (String.◌∷◌ c s) =
    let rest = split_lines s in
    if is_newline c
    then "" ∷ rest
    else if is_return c && starts_line_end s
    then rest
    else prepend c rest

-- The characters that `trim` removes: ECMAScript's white space and line ends.
unfoldable pub is_white : Char → Bool
is_white c =
    let n = code c in
    (leb 9 n && leb n 13)
    || (nat_beq n 32
        || (nat_beq n 160
            || (nat_beq n 5760
                || ((leb 8192 n && leb n 8202)
                    || (nat_beq n 8232
                        || (nat_beq n 8233
                            || (nat_beq n 8239
                                || (nat_beq n 8287 || (nat_beq n 12288 || nat_beq n 65279)))))))))

unfoldable pub trim_start : String → String
unfolding is_white
trim_start String.[] = ""
trim_start (String.◌∷◌ c s) = let rest = trim_start s in if is_white c then rest else String.◌∷◌ c s

unfoldable pub trim_end : String → String
unfolding is_white
trim_end String.[] = ""
trim_end (String.◌∷◌ c s) =
    let rest = trim_end s in if is_empty rest && is_white c then "" else String.◌∷◌ c rest

unfoldable pub trim : String → String
unfolding trim_start trim_end
trim s = trim_end (trim_start s)

lines_run : split_lines "ab\r\n\nc\rd" ≡ "ab" ∷ "" ∷ "c\rd" ∷ []
unfolding split_lines
lines_run = refl

trim_runs : trim "  a b \t" ≡ "a b"
unfolding trim
trim_runs = refl

-- No character of the text ends a line.
abbrev pub is_line : String → Bool
is_line String.[] = true
is_line (String.◌∷◌ c s) = (not (is_newline c) && not (is_return c)) && is_line s

pub append-cons :
    (c : Char) (s t : String) → String.◌++◌ (String.◌∷◌ c s) t ≡ String.◌∷◌ c (String.◌++◌ s t)
append-cons c s t = λ i. append.cons c s t i

pub append-nil : (t : String) → String.◌++◌ "" t ≡ t
append-nil t = λ i. append.nil t i

newline : (t : String) → split_lines (String.◌++◌ "\n" t) ≡ "" ∷ split_lines t
unfolding split_lines
newline t = rw (append-cons (String.char_at "\n" 0) "" t, append-nil t) refl

pub split_lines-append :
    (s t : String)
    → is_line s ≡ true
    → split_lines (String.◌++◌ s (String.◌++◌ "\n" t)) ≡ s ∷ split_lines t
unfolding split_lines
split_lines-append String.[] t h = rw (append-nil (String.◌++◌ "\n" t)) (newline t)
split_lines-append (String.◌∷◌ c s) t h =
    let ih = split_lines-append s t (ground arith) in
    rw (append-cons c s (String.◌++◌ "\n" t)) (ground arith)

-- No character of the text is white.
abbrev pub is_visible : String → Bool
is_visible String.[] = true
is_visible (String.◌∷◌ c s) = not (is_white c) && is_visible s

pub is_visible-append :
    (s t : String) → is_visible s ≡ true → is_visible t ≡ true → is_visible (String.◌++◌ s t) ≡ true
is_visible-append String.[] t h k = rw (append-nil t) k
is_visible-append (String.◌∷◌ c s) t h k =
    let ih = is_visible-append s t (ground arith) k in rw (append-cons c s t) (ground arith)

pub is_line-append :
    (s t : String) → is_line s ≡ true → is_line t ≡ true → is_line (String.◌++◌ s t) ≡ true
is_line-append String.[] t h k = rw (append-nil t) k
is_line-append (String.◌∷◌ c s) t h k =
    let ih = is_line-append s t (ground arith) k in rw (append-cons c s t) (ground arith)

pub is_empty-append : (s t : String) → is_empty t ≡ false → is_empty (String.◌++◌ s t) ≡ false
is_empty-append String.[] t h = rw (append-nil t) h
is_empty-append (String.◌∷◌ c s) t h = rw (append-cons c s t) refl

pub visible_line : (s : String) → is_visible s ≡ true → is_line s ≡ true
unfolding is_white
visible_line String.[] h = refl
visible_line (String.◌∷◌ c s) h = ground (arith, visible_line s)

trim_end-visible : (s : String) → is_visible s ≡ true → trim_end s ≡ s
unfolding trim_end
trim_end-visible String.[] h = refl
trim_end-visible (String.◌∷◌ c s) h = ground (arith, trim_end-visible s)

trim_end-append :
    (s t : String)
    → trim_end t ≡ t
    → is_empty t ≡ false
    → trim_end (String.◌++◌ s t) ≡ String.◌++◌ s t
unfolding trim_end
trim_end-append String.[] t h k = rw (append-nil t) h
trim_end-append (String.◌∷◌ c s) t h k =
    let ih = trim_end-append s t h k in
    let full = is_empty-append s t k in rw (append-cons c s t) (ground arith)

-- A text that begins with a visible character and ends with visible ones.
pub trim-append :
    (c : Char) (s t : String)
    → is_white c ≡ false
    → is_visible t ≡ true
    → is_empty t ≡ false
    → trim (String.◌++◌ (String.◌∷◌ c s) t) ≡ String.◌++◌ (String.◌∷◌ c s) t
unfolding trim trim_start
trim-append c s t white visible full =
    let whole = trim_end-append (String.◌∷◌ c s) t (trim_end-visible t visible) full in
    rw (append-cons c s t) (ground (arith, append-cons c s t))

pub append-empty : (s : String) → String.◌++◌ s "" ≡ s
append-empty String.[] = append-nil ""
append-empty (String.◌∷◌ c s) = append-cons c s "" ∙ ap (String.◌∷◌ c) (append-empty s)
