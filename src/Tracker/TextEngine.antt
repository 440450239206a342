-- ===== src/Tracker/TextEngine.antt =====
-- What the tracker policies use of JavaScript's text functions beyond concatenation and comparison:
-- functions over the tables of Unicode, the regular expressions, and dates. The last part is
-- src/tracker/github-login.ts and landing-command-signal.ts, which are written with them.
use symphony_ts.Base.{
  ℕ, String, Bool, false, not, List, [], ◌∷◌, map, Option, none, some, if◌then◌else◌, ◌==◌,
  string_eq,
}
use symphony_ts.Base.Int.{ℤ}
use symphony_ts.Base.Text.{ends_with, without_end}
use symphony_ts.Base.Lines.{trim, split_lines}
use symphony_ts.Base.Sets.{set_of}

-- The regular expressions that the source tests texts with, by the names it gives them or by what
-- they match.
pub data Pattern : Type 0 where
  devin_informational_heading devin_review found_potential_issues : Pattern
  issues_found_line no_issues_found_line : Pattern
  cursor_taking_a_look cursor_agent_links greptile_summary_heading : Pattern

pub record TextEngine : Type 0 where
  pub to_lower_case : String → String
  -- `replace(/<!--[\s\S]*?-->/gu, "")` and `replace(/\s+/gu, " ")`
  pub without_html_comments : String → String
  pub with_single_spaces : String → String
  pub test : Pattern → String → Bool
  -- `length` and `slice(0, n)` count UTF-16 code units.
  pub code_units : String → ℕ
  pub take_units : ℕ → String → String
  -- `Date.parse`, none for NaN.
  pub date_parse : String → Option ℕ
  pub locale_compare : String → String → ℤ

-- `find` of an array.
abbrev pub first_such {ℓ} : {A : Type ℓ} → (A → Bool) → List A → Option A
first_such p [] = none
first_such p (x ∷ xs) = let rest = first_such p xs in if p x then some x else rest

-- The lines that are not blank, trimmed; and the first of them.
abbrev pub is_text : String → Bool
is_text line = not (line == "")

unfoldable pub first_line : String → Option String
unfolding trim split_lines
first_line body = first_such is_text (map trim (split_lines body))

module _ (js : TextEngine) where
  unfoldable pub normalize_git_hub_login : String → String
  normalize_git_hub_login login =
      let normalized = js.to_lower_case login in
      if ends_with normalized "[bot]" then without_end normalized 5 else normalized

  unfoldable pub create_git_hub_login_set : List String → List String
  unfolding normalize_git_hub_login
  create_git_hub_login_set logins = set_of (map normalize_git_hub_login logins)

  abbrev is_land : Option String → Bool
  is_land none = false
  is_land (some line) = js.to_lower_case line == "/land"

  unfoldable pub parse_landing_command_signal : String → Bool
  unfolding first_line
  parse_landing_command_signal body = is_land (first_line body)
