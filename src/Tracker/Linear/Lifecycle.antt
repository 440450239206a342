-- ===== src/Tracker/Linear/Lifecycle.antt =====
-- The handoff of a Linear issue: `createLinearHandoffLifecycle` of src/tracker/linear-policy.ts.
use symphony_ts.Base.{
  ℕ, suc, String, Bool, true, false, ◌||◌, List, [], ◌∷◌, filter, Option, none, some, if◌then◌else◌,
  leb, ◌==◌, nat_eq,
}
use symphony_ts.Base.Int.{ℤ, pos, sub_ℕ}
use symphony_ts.Base.Sort.{sort_by}
use symphony_ts.Base.Text.{cat}
use symphony_ts.Domain.Handoff.{
  HandoffLifecycle, awaiting_human_review, rework_required, awaiting_landing_command,
}
use symphony_ts.Domain.Handoff
use symphony_ts.Domain.PlanReview.{
  PlanReviewProtocol, PlanReviewSignal, decided, changes_requested, approved, waived,
}
use symphony_ts.Tracker.TextEngine.{TextEngine}
use symphony_ts.Tracker.PlanReview.{parse_plan_review_signal, parsed, last_of}
use symphony_ts.Tracker.Linear.{
  LinearIssueSnapshot, LinearComment, LinearWorkpadEntry, LinearWorkpadStatus, LinearTrackerConfig,
  linear_lifecycle, missing_linear_lifecycle, same_linear_state_name, matches_configured_state_name,
  has_handoff_marker, human_review_state_name, rework_state_name, merging_state_name,
}

-- A comment with its place among the comments.
pub record PlacedComment : Type 0 where
  pub comment : LinearComment
  pub index : ℕ

unfoldable pub placed_from : ℕ → List LinearComment → List PlacedComment
placed_from n [] = []
placed_from n (comment ∷ rest) = record { comment = comment; index = n } ∷ placed_from (suc n) rest

abbrev pub handoff_started_of : LinearWorkpadEntry → Option String
handoff_started_of entry = elim entry.status [
  | LinearWorkpadStatus.handoff_ready ↦ some entry.updated_at
  | _ ↦ none
]

unfoldable pub current_linear_handoff_started_at : LinearIssueSnapshot → Option String
current_linear_handoff_started_at issue = elim issue.workpad [
  | none ↦ none
  | some entry ↦ handoff_started_of entry
]

-- The decision that a signal is, where it is one.
abbrev pub is_changes_requested : Option PlanReviewSignal → Bool
is_changes_requested (some (decided changes_requested)) = true
is_changes_requested _ = false

abbrev pub is_agreed : Option PlanReviewSignal → Bool
is_agreed (some (decided approved)) = true
is_agreed (some (decided waived)) = true
is_agreed _ = false

module _ (js : TextEngine) where
  -- `Date.parse`, with null as NaN.
  abbrev pub parse_or_nan : Option String → Option ℕ
  parse_or_nan none = none
  parse_or_nan (some s) = js.date_parse s

  unfoldable pub is_current : Option ℕ → LinearComment → Bool
  is_current none comment = true
  is_current (some start) comment = elim (js.date_parse comment.created_at) [
    | none ↦ false
    | some t ↦ leb start t
  ]

  -- By date, then by place; a difference with NaN is no order.
  unfoldable pub comment_order : PlacedComment → PlacedComment → ℤ
  comment_order left right = elim (js.date_parse left.comment.created_at) [
    | none ↦ pos 0
    | some l ↦ elim (js.date_parse right.comment.created_at) [
      | none ↦ pos 0
      | some r ↦ if l == r then sub_ℕ left.index right.index else sub_ℕ l r
    ]
  ]

  unfoldable pub latest_linear_review_signal :
      List LinearComment → Option String → PlanReviewProtocol → Option PlanReviewSignal
  unfolding is_current comment_order placed_from parsed parse_plan_review_signal
  latest_linear_review_signal comments handoff_started_at protocol = last_of (
      parsed (λ placed. parse_plan_review_signal js placed.comment.body protocol)
        (sort_by comment_order (
          filter (λ placed. is_current (parse_or_nan handoff_started_at) placed.comment)
            (placed_from 0 comments))))

  module _ (compare_names : String → String → ℤ) where
    -- The branch of Human Review, or of a workpad that marks the handoff.
    unfoldable pub review_lifecycle :
        LinearIssueSnapshot → String → Option PlanReviewSignal → HandoffLifecycle
    unfolding linear_lifecycle
    review_lifecycle issue branch_name review_signal =
        if is_changes_requested review_signal
        then linear_lifecycle rework_required branch_name
            (cat ("Linear issue " ∷ issue.identifier ∷ " has requested rework" ∷ []))
        else if is_agreed review_signal
        then linear_lifecycle awaiting_landing_command branch_name (
            cat (
              "Linear issue " ∷ issue.identifier
              ∷ " was approved and is waiting for a landing handoff" ∷ []))
        else linear_lifecycle awaiting_human_review branch_name
            (cat ("Linear issue " ∷ issue.identifier ∷ " is waiting for human review" ∷ []))

    unfoldable pub issue_lifecycle :
        LinearIssueSnapshot → String → LinearTrackerConfig → HandoffLifecycle
    unfolding linear_lifecycle missing_linear_lifecycle review_lifecycle same_linear_state_name
        matches_configured_state_name latest_linear_review_signal current_linear_handoff_started_at
    issue_lifecycle issue branch_name config =
        let name = issue.state.name in
        let review_signal =
          latest_linear_review_signal issue.comments (current_linear_handoff_started_at issue)
            config.plan_review in
        if matches_configured_state_name compare_names config.terminal_states name
        then linear_lifecycle Handoff.handoff_ready branch_name (
            cat
              ("Linear issue " ∷ issue.identifier ∷ " reached terminal state '" ∷ name ∷ "'" ∷ []))
        else if same_linear_state_name compare_names name rework_state_name
        then linear_lifecycle rework_required branch_name (
            cat
              ("Linear issue " ∷ issue.identifier ∷ " is waiting on rework in '" ∷ name ∷ "'" ∷ []))
        else if same_linear_state_name compare_names name merging_state_name
        then linear_lifecycle awaiting_landing_command branch_name (
            cat (
              "Linear issue " ∷ issue.identifier ∷ " is waiting in '" ∷ name
              ∷ "' for landing to be observed" ∷ []))
        else if same_linear_state_name compare_names name human_review_state_name
            || has_handoff_marker issue.workpad
        then review_lifecycle issue branch_name review_signal
        else if matches_configured_state_name compare_names config.active_states name
        then missing_linear_lifecycle branch_name
            (cat ("Linear issue " ∷ issue.identifier ∷ " is still active in '" ∷ name ∷ "'" ∷ []))
        else missing_linear_lifecycle branch_name (
            cat (
              "Linear issue " ∷ issue.identifier ∷ " has no recognized handoff state in '" ∷ name
              ∷ "'" ∷ []))

    unfoldable pub create_linear_handoff_lifecycle :
        Option LinearIssueSnapshot → String → LinearTrackerConfig → HandoffLifecycle
    unfolding issue_lifecycle missing_linear_lifecycle
    create_linear_handoff_lifecycle none branch_name config =
        missing_linear_lifecycle branch_name
          (cat ("No Linear issue found for branch " ∷ branch_name ∷ []))
    create_linear_handoff_lifecycle (some issue) branch_name config =
        issue_lifecycle issue branch_name config
