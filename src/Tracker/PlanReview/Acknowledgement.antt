-- ===== src/Tracker/PlanReview/Acknowledgement.antt =====
-- An acknowledgement that is built is read back as what it acknowledges.
use Prim.Native.String
use symphony_ts.Base.{
  ℕ, ◌≡◌, refl, ap, ◌∙◌, String, true, false, List, [], ◌∷◌, map, filter, some, arith, inl, inr,
  ◌==◌, string_eq, Bool-cases,
}
use symphony_ts.Base.Lines.{
  trim, split_lines, split_lines-append, is_line, is_line-append, is_empty, is_empty-append,
  is_white, visible_line, trim-append, append-empty,
}
use symphony_ts.Base.Text.{cat, join, show}
use symphony_ts.Base.Text.Reading.{number_after-show, after_prefix}
use symphony_ts.Base.Text.Digits.{show-visible, show-full}
use text.Mathlib.TextEquality.{eq_iff}
use symphony_ts.Domain.PlanReview.{
  PlanReviewDecisionSignal, changes_requested, approved, waived, PlanReviewProtocol,
}
use symphony_ts.Tracker.TextEngine.{TextEngine, is_text}
use symphony_ts.Tracker.PlanReview.{
  IssueCommentSnapshot, signal_text, next_action, build_plan_review_acknowledgement,
  parse_plan_review_acknowledgement, acknowledgement_of, acknowledged_signal,
  find_review_comment_id, match_review_comment_id,
}

-- The first line of an acknowledgement, as it is and in lower case; and the line with the id.
abbrev pub head_line : PlanReviewDecisionSignal → String
head_line signal = cat ("Plan review acknowledged: " ∷ signal_text signal ∷ [])

abbrev pub lower_head_line : PlanReviewDecisionSignal → String
lower_head_line signal = cat ("plan review acknowledged: " ∷ signal_text signal ∷ [])

abbrev pub id_line : ℕ → String
id_line id = cat ("Review comment id: " ∷ show id ∷ [])

-- The rest of the text, after the line with the id.
abbrev tail_text : PlanReviewDecisionSignal → IssueCommentSnapshot → PlanReviewProtocol → String
tail_text signal comment protocol = join "\n" (
    cat ("Review comment URL: " ∷ comment.url ∷ [])
    ∷ ""
    ∷ "Next action"
    ∷ cat ("- " ∷ next_action signal protocol ∷ [])
    ∷ [])

head_is_line : (signal : PlanReviewDecisionSignal) → is_line (head_line signal) ≡ true
unfolding cat
head_is_line changes_requested = refl
head_is_line approved = refl
head_is_line waived = refl

trim-head : (signal : PlanReviewDecisionSignal) → trim (head_line signal) ≡ head_line signal
unfolding cat trim
trim-head changes_requested = refl
trim-head approved = refl
trim-head waived = refl

trim_blank : trim "" ≡ ""
unfolding trim
trim_blank = refl

head_is_text : (signal : PlanReviewDecisionSignal) → is_text (head_line signal) ≡ true
unfolding cat
head_is_text changes_requested = refl
head_is_text approved = refl
head_is_text waived = refl

acknowledged-head :
    (signal : PlanReviewDecisionSignal) → acknowledged_signal (lower_head_line signal) ≡ some signal
unfolding cat acknowledged_signal
acknowledged-head changes_requested = refl
acknowledged-head approved = refl
acknowledged-head waived = refl

id_line-show : (id : ℕ) → id_line id ≡ String.◌++◌ "Review comment id: " (show id)
unfolding cat
id_line-show id = ap (String.◌++◌ "Review comment id: ") (append-empty (show id))

id_is_line : (id : ℕ) → is_line (id_line id) ≡ true
id_is_line id =
    rw (id_line-show id) (
      is_line-append "Review comment id: " (show id) refl
        (visible_line (show id) (show-visible id)))

trim-id : (id : ℕ) → trim (id_line id) ≡ id_line id
unfolding is_white
trim-id id = rw (id_line-show id) (
    trim-append (String.char_at "R" 0) "eview comment id: " (show id) refl (show-visible id)
      (show-full id))

full_is_text : (s : String) → is_empty s ≡ false → is_text s ≡ true
full_is_text s full = elim (Bool-cases (s == "")) [
  | inr e ↦ rw e refl
  | inl e ↦
      let same : s ≡ "" = (eq_iff s "").0 e in let none : is_empty s ≡ true = ap is_empty same in cc
]

id_is_text : (id : ℕ) → is_text (id_line id) ≡ true
id_is_text id =
    rw (id_line-show id)
      (full_is_text _ (is_empty-append "Review comment id: " (show id) (show-full id)))

lines-build :
    (signal : PlanReviewDecisionSignal) (comment : IssueCommentSnapshot)
    (protocol : PlanReviewProtocol)
    → split_lines (build_plan_review_acknowledgement signal comment protocol)
      ≡ head_line signal ∷ "" ∷ id_line comment.id ∷ split_lines (tail_text signal comment protocol)
unfolding build_plan_review_acknowledgement join
lines-build signal comment protocol =
    split_lines-append (head_line signal) _ (head_is_line signal)
    ∙ ap (◌∷◌ (head_line signal)) (
        split_lines-append "" _ refl
        ∙ ap (◌∷◌ "") (split_lines-append (id_line comment.id) _ (id_is_line comment.id)))

-- The lines that are not blank begin with the head and the id.
pub texts-build :
    (signal : PlanReviewDecisionSignal) (comment : IssueCommentSnapshot)
    (protocol : PlanReviewProtocol)
    → (rest : List String) × (filter is_text
          (map trim (split_lines (build_plan_review_acknowledgement signal comment protocol)))
        ≡ head_line signal ∷ id_line comment.id ∷ rest)
unfolding filter
texts-build signal comment protocol = (
  filter is_text (map trim (split_lines (tail_text signal comment protocol))),
  rw
      (
        lines-build signal comment protocol,
        trim-head signal,
        trim-id comment.id,
        head_is_text signal,
        id_is_text comment.id,
        trim_blank,
      )
      refl,
)

pub match-id : (id : ℕ) → match_review_comment_id (id_line id) ≡ some id
unfolding match_review_comment_id after_prefix
match-id id =
    ap match_review_comment_id (id_line-show id)
    ∙ number_after-show "review comment id:" "Review comment id: " id refl

-- What the round trip needs of the text functions: the head of the acknowledgement in lower case.
pub record Reads (js : TextEngine) (signal : PlanReviewDecisionSignal) : Type 0 where
  pub lowers : js.to_lower_case (head_line signal) ≡ lower_head_line signal

read-lines :
    (js : TextEngine) (signal : PlanReviewDecisionSignal) (id : ℕ) (posted : IssueCommentSnapshot)
    (rest : List String)
    → Reads js signal
    → acknowledgement_of js posted (head_line signal ∷ id_line id ∷ rest)
      ≡ some (record { signal = signal; review_comment_id = id; comment = posted })
unfolding acknowledgement_of find_review_comment_id
read-lines js signal id posted rest reads =
    let lowers = reads.lowers in
    let matches = match-id id in let known = acknowledged-head signal in ground arith

-- A comment with the text of the acknowledgement that is built for a decision on a plan is read as an
-- acknowledgement of that decision and of the id of the comment that took it, whatever the URL of
-- that comment and the protocol are, where lower case is as it should be on the first line.
pub parse-build :
    (js : TextEngine) (signal : PlanReviewDecisionSignal) (comment posted : IssueCommentSnapshot)
    (protocol : PlanReviewProtocol)
    → Reads js signal
    → posted.body ≡ build_plan_review_acknowledgement signal comment protocol
    → parse_plan_review_acknowledgement js posted
      ≡ some (record { signal = signal; review_comment_id = comment.id; comment = posted })
unfolding parse_plan_review_acknowledgement
parse-build js signal comment posted protocol reads same =
    let (rest, texts) = texts-build signal comment protocol in
    ap (λ body. acknowledgement_of js posted (filter is_text (map trim (split_lines body)))) same
    ∙ (ap (acknowledgement_of js posted) texts ∙ read-lines js signal comment.id posted rest reads)
