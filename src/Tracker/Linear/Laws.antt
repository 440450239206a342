-- ===== src/Tracker/Linear/Laws.antt =====
-- An issue that is handed off is under supervision, and old decisions do not count for a new handoff.
use symphony_ts.Base.{
  ℕ, suc, ◌≡◌, refl, ap, Bool, true, false, String, List, [], ◌∷◌, filter, Option, none, some,
  arith, All, if◌then◌else◌, Bool-cases, inl, inr,
}
use symphony_ts.Base.Int.{ℤ}
use symphony_ts.Base.Sort.{sort_by-All}
use symphony_ts.Domain.Handoff.{HandoffLifecycleKind, missing_target, awaiting_human_review}
use symphony_ts.Domain.PlanReview.{PlanReviewProtocol}
use symphony_ts.Tracker.TextEngine.{TextEngine}
use symphony_ts.Tracker.PlanReview.{parsed, parse_plan_review_signal, last_of}
use symphony_ts.Tracker.Linear.{
  LinearIssueSnapshot, LinearComment, LinearTrackerConfig, LinearIssueClassification,
  classify_linear_issue, has_completed, is_linear_review_workflow_state, linear_lifecycle,
  missing_linear_lifecycle, has_handoff_marker, matches_configured_state_name,
  same_linear_state_name, rework_state_name, merging_state_name,
}
use symphony_ts.Tracker.Linear.Lifecycle.{
  issue_lifecycle, create_linear_handoff_lifecycle, review_lifecycle, latest_linear_review_signal,
  current_linear_handoff_started_at, PlacedComment, placed_from, is_current, comment_order,
  parse_or_nan,
}

abbrev pub is_missing_target : HandoffLifecycleKind → Bool
is_missing_target missing_target = true
is_missing_target _ = false

-- An issue that is assigned to the worker and whose handoff lifecycle has a target is classified as
-- completed where its workpad says so and as running otherwise: it is neither taken for a ready
-- issue, nor for a failed one, nor ignored.
pub classify-handoff :
    (js : TextEngine) (compare_names : String → String → ℤ) (issue : LinearIssueSnapshot)
    (branch_name : String) (config : LinearTrackerConfig)
    → issue.assigned_to_worker ≡ true
    → is_missing_target
        (create_linear_handoff_lifecycle js compare_names (some issue) branch_name config).kind
      ≡ false
    → classify_linear_issue compare_names issue config ≡ (
        if has_completed issue.workpad
        then LinearIssueClassification.completed
        else LinearIssueClassification.running)
unfolding create_linear_handoff_lifecycle issue_lifecycle classify_linear_issue linear_lifecycle
    missing_linear_lifecycle is_linear_review_workflow_state
classify-handoff js compare_names issue branch_name config assigned target = ground arith

parsed-none :
    {A B : Type 0} (f : A → Option B) (xs : List A) → All (λ x. f x ≡ none) xs → parsed f xs ≡ []
unfolding parsed
parsed-none f [] h = refl
parsed-none f (x ∷ xs) (e, h) = rw (e, parsed) (parsed-none f xs h)

module _ (js : TextEngine) (protocol : PlanReviewProtocol) (start : Option ℕ) where
  -- A comment from before the handoff, or without a signal.
  pub record IsSilent (comment : LinearComment) : Type 0 where
    pub silent :
        is_current js start comment ≡ true
        → parse_plan_review_signal js comment.body protocol ≡ none

  current-All :
      (n : ℕ) (comments : List LinearComment)
      → All IsSilent comments
      → All
          (λ placed. parse_plan_review_signal js placed.comment.body protocol ≡ none)
          (filter (λ placed. is_current js start placed.comment) (placed_from n comments))
  unfolding filter placed_from
  current-All n [] h = tt
  current-All n (comment ∷ rest) (s, h) = elim (Bool-cases (is_current js start comment)) [
    | inl e ↦ rw e (s.silent e, current-All (suc n) rest h)
    | inr e ↦ rw e (current-All (suc n) rest h)
  ]

no_signal :
    (js : TextEngine) (protocol : PlanReviewProtocol) (comments : List LinearComment)
    (started : Option String)
    → All (IsSilent js protocol (parse_or_nan js started)) comments
    → latest_linear_review_signal js comments started protocol ≡ none
unfolding latest_linear_review_signal
no_signal js protocol comments started h = ap last_of (
    parsed-none
      (λ (placed : PlacedComment). parse_plan_review_signal js placed.comment.body protocol) _
      (sort_by-All (comment_order js)
        (λ placed. parse_plan_review_signal js placed.comment.body protocol ≡ none)
        (filter (λ placed. is_current js (parse_or_nan js started) placed.comment)
          (placed_from 0 comments))
        (current-All js protocol (parse_or_nan js started) 0 comments h)))

-- Where the workpad of an issue marks the handoff, and every comment that is dated at or after the
-- time of that mark has no signal of the protocol, the issue waits for a human review, whatever
-- older comments approve, waive or ask for; its state being none of the terminal ones, neither
-- Rework nor Merging.
pub handoff-awaiting :
    (js : TextEngine) (compare_names : String → String → ℤ) (issue : LinearIssueSnapshot)
    (branch_name : String) (config : LinearTrackerConfig)
    → has_handoff_marker issue.workpad ≡ true
    → All
        (IsSilent js config.plan_review (parse_or_nan js (current_linear_handoff_started_at issue)))
        issue.comments
    → matches_configured_state_name compare_names config.terminal_states issue.state.name ≡ false
    → same_linear_state_name compare_names issue.state.name rework_state_name ≡ false
    → same_linear_state_name compare_names issue.state.name merging_state_name ≡ false
    → (create_linear_handoff_lifecycle js compare_names (some issue) branch_name config).kind
      ≡ awaiting_human_review
unfolding create_linear_handoff_lifecycle issue_lifecycle review_lifecycle linear_lifecycle
handoff-awaiting js compare_names issue branch_name config marked silent open_state unreworked
      unmerged =
    let quiet =
      no_signal js config.plan_review issue.comments (current_linear_handoff_started_at issue)
        silent in
    ground arith
