-- ===== src/Tracker/GuardedLanding.antt =====
-- src/tracker/guarded-landing.ts: whether a pull request may be merged now, with the gate snapshot
-- that `executeLanding` of src/tracker/github.ts builds for it. Whether an author is one of the
-- configured review bots is an argument.
pub mod Laws
use symphony_ts.Base.{
  is_nonempty, ℕ, String, Bool, true, false, not, ◌&&◌, ◌||◌, List, [], ◌∷◌, Option, none, some,
  if◌then◌else◌, ◌==◌, string_eq, length, filter, is_some, ltb,
}
use symphony_ts.Base.Text.{cat}
use symphony_ts.Domain.Handoff.{
  PullRequestHandle, ReviewFeedback, ReviewFeedbackKind, review_thread, PullRequestReviewerVerdict,
  PullRequestRequiredReviewerState,
}
use symphony_ts.Tracker.Snapshot.{PullRequestSnapshot, LandingState}
use symphony_ts.Tracker.PullRequestPolicy.{
  is_blocking, is_merged, is_running, is_missing, is_unknown, is_mergeable, has_bad_merge_state,
  or_text,
}

pub data LandingBlockedReason : Type 0 where
  stale_approved_head mergeability_unknown pull_request_not_mergeable : LandingBlockedReason
  checks_not_green review_threads_unresolved required_bot_review_missing : LandingBlockedReason
  required_reviewer_verdict_unknown actionable_review_feedback : LandingBlockedReason
  merge_request_refused : LandingBlockedReason

pub data BlockedLifecycleKind : Type 0 where
  merged_kind awaiting_human_review awaiting_system_checks : BlockedLifecycleKind
  degraded_review_infrastructure awaiting_landing_command awaiting_landing : BlockedLifecycleKind
  rework_required : BlockedLifecycleKind

pub data LandingExecutionResult : Type 0 where
  requested : String → LandingExecutionResult
  blocked : LandingBlockedReason → BlockedLifecycleKind → String → LandingExecutionResult

pub record GuardedLandingSnapshot : Type 0 where
  pub approved_head_sha : Option String
  pub pull_request : PullRequestHandle
  pub landing_state : LandingState
  pub mergeable : Option Bool
  pub merge_state_status : Option String
  pub draft : Bool
  pub pending_check_names : List String
  pub failing_check_names : List String
  pub reviewer_verdict : PullRequestReviewerVerdict
  pub bot_actionable_review_feedback : List ReviewFeedback
  pub unresolved_review_thread_count : ℕ
  pub required_reviewer_state : PullRequestRequiredReviewerState

-- `Landing blocked for ${formatPullRequest(snapshot)} because …`
unfoldable pub blocked_text : GuardedLandingSnapshot → List String → String
blocked_text snapshot why =
    cat ("Landing blocked for pull request " ∷ snapshot.pull_request.url ∷ " because " ∷ why)

-- Both SHAs are known and differ.
abbrev pub differ : Option String → Option String → Bool
differ (some approved) (some head) = not (approved == head)
differ _ _ = false

unfoldable pub checks_blocked_lifecycle_kind : GuardedLandingSnapshot → BlockedLifecycleKind
checks_blocked_lifecycle_kind snapshot =
    if is_nonempty snapshot.failing_check_names && not (is_nonempty snapshot.pending_check_names)
    then rework_required
    else awaiting_system_checks

-- From the test of the reviewer verdict to the end.
unfoldable pub evaluate_reviews : GuardedLandingSnapshot → LandingExecutionResult
evaluate_reviews snapshot =
    if is_blocking snapshot.reviewer_verdict
    then blocked actionable_review_feedback rework_required (
        blocked_text snapshot
          ("a reviewer app explicitly reported issues on the current head." ∷ []))
    else if is_nonempty snapshot.bot_actionable_review_feedback
    then blocked actionable_review_feedback rework_required
        (blocked_text snapshot ("actionable review feedback is still open." ∷ []))
    else if ltb 0 snapshot.unresolved_review_thread_count
    then blocked review_threads_unresolved awaiting_human_review
        (blocked_text snapshot ("unresolved non-outdated review threads remain." ∷ []))
    else if is_missing snapshot.required_reviewer_state
    then blocked required_bot_review_missing degraded_review_infrastructure (
        blocked_text snapshot (
          "expected reviewer-app output has not been observed on the current head and external review coverage is degraded."
          ∷ []))
    else if is_unknown snapshot.required_reviewer_state
    then blocked required_reviewer_verdict_unknown degraded_review_infrastructure (
        blocked_text snapshot (
          "required reviewer-app output on the current head did not produce an explicit pass verdict."
          ∷ []))
    else if is_running snapshot.required_reviewer_state
    then blocked checks_not_green awaiting_system_checks (
        blocked_text snapshot
          ("a required reviewer app is still running on the current head." ∷ []))
    else requested
        (cat ("Landing requested for pull request " ∷ snapshot.pull_request.url ∷ "." ∷ []))

unfoldable pub evaluate_guarded_landing : GuardedLandingSnapshot → LandingExecutionResult
unfolding evaluate_reviews checks_blocked_lifecycle_kind
evaluate_guarded_landing snapshot =
    if is_merged snapshot.landing_state
    then blocked pull_request_not_mergeable merged_kind
        (blocked_text snapshot ("it is already merged." ∷ []))
    else if differ snapshot.approved_head_sha snapshot.pull_request.head_sha
    then blocked stale_approved_head awaiting_landing_command
        (blocked_text snapshot ("the approved head SHA is stale." ∷ []))
    else if snapshot.draft
    then blocked pull_request_not_mergeable awaiting_landing
        (blocked_text snapshot ("the pull request is still a draft." ∷ []))
    else if not (is_mergeable snapshot.mergeable)
    then blocked
        (if is_some snapshot.mergeable then pull_request_not_mergeable else mergeability_unknown)
        awaiting_landing
        (if is_some snapshot.mergeable
          then blocked_text snapshot ("GitHub does not consider it mergeable." ∷ [])
          else blocked_text snapshot ("GitHub mergeability is still unknown." ∷ []))
    else if is_nonempty snapshot.failing_check_names || is_nonempty snapshot.pending_check_names
    then blocked checks_not_green (checks_blocked_lifecycle_kind snapshot)
        (blocked_text snapshot ("required checks are not terminal green." ∷ []))
    else if has_bad_merge_state snapshot.merge_state_status
    then blocked pull_request_not_mergeable awaiting_landing (
        blocked_text snapshot
          ("GitHub reports merge state '" ∷ or_text snapshot.merge_state_status ∷ "'." ∷ []))
    else evaluate_reviews snapshot

abbrev is_review_thread : ReviewFeedbackKind → Bool
is_review_thread review_thread = true
is_review_thread _ = false

-- `gateSnapshot` of `executeLanding`: the snapshot, the head that was approved, and the
-- mergeability that the pull request's details report.
unfoldable pub gate_snapshot :
    (Option String → Bool)
    → PullRequestSnapshot
    → Option String
    → Option Bool
    → Option String
    → Bool
    → GuardedLandingSnapshot
gate_snapshot is_bot snapshot approved_head_sha mergeable merge_state_status draft = record {
  approved_head_sha = approved_head_sha;
  pull_request = snapshot.pull_request;
  landing_state = snapshot.landing_state;
  mergeable = mergeable;
  merge_state_status = merge_state_status;
  draft = draft;
  pending_check_names = snapshot.pending_check_names;
  failing_check_names = snapshot.failing_check_names;
  reviewer_verdict = snapshot.reviewer_verdict;
  bot_actionable_review_feedback = snapshot.bot_actionable_review_feedback;
  unresolved_review_thread_count = length (
      filter (λ feedback. is_review_thread feedback.kind && not (is_bot feedback.author_login))
        snapshot.actionable_review_feedback);
  required_reviewer_state = snapshot.required_reviewer_state;
}
