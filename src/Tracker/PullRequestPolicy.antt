-- ===== src/Tracker/PullRequestPolicy.antt =====
-- src/tracker/pull-request-policy.ts: the lifecycle of an issue from its pull request's snapshot.
pub mod Laws
pub mod Command
use symphony_ts.Base.{
  String, Bool, true, false, not, ◌&&◌, ◌||◌, List, [], ◌∷◌, ◌++◌, Option, none, some,
  if◌then◌else◌, ◌==◌, string_eq, option_eq, length, is_some, is_nonempty,
}
use symphony_ts.Base.Text.{cat, join, show}
use symphony_ts.Base.Sets.{contains}
use symphony_ts.Domain.Handoff.{
  HandoffLifecycleKind, missing_target, awaiting_human_review, awaiting_system_checks,
  degraded_review_infrastructure, awaiting_landing_command, awaiting_landing, rework_required,
  handoff_ready, HandoffLifecycle, PullRequestReviewerVerdict, no_blocking_verdict,
  blocking_issues_found, PullRequestRequiredReviewerState, not_required, running, missing, unknown,
  ReviewFeedback,
}
use symphony_ts.Tracker.Snapshot.{PullRequestSnapshot, LandingState, merged}

pub record NoCheckObservation : Type 0 where
  pub url : String
  pub latest_commit_at : Option String

pub record PullRequestPolicyResult : Type 0 where
  pub lifecycle : HandoffLifecycle
  pub next_no_check_observation : Option NoCheckObservation

-- `PASSING_MERGE_STATES.has(status)`
unfoldable pub is_passing_merge_state : String → Bool
unfolding contains
is_passing_merge_state status = contains ("clean" ∷ "has_hooks" ∷ []) status

abbrev pub is_blocking : PullRequestReviewerVerdict → Bool
is_blocking blocking_issues_found = true
is_blocking no_blocking_verdict = false

abbrev pub is_merged : LandingState → Bool
is_merged merged = true
is_merged _ = false

abbrev pub is_running : PullRequestRequiredReviewerState → Bool
is_running running = true
is_running _ = false

abbrev pub is_missing : PullRequestRequiredReviewerState → Bool
is_missing missing = true
is_missing _ = false

abbrev pub is_unknown : PullRequestRequiredReviewerState → Bool
is_unknown unknown = true
is_unknown _ = false

-- `mergeable === true` and `mergeable === null`
abbrev pub is_mergeable : Option Bool → Bool
is_mergeable none = false
is_mergeable (some b) = b

-- `mergeStateStatus !== null && !PASSING_MERGE_STATES.has(mergeStateStatus)`
unfoldable pub has_bad_merge_state : Option String → Bool
has_bad_merge_state none = false
has_bad_merge_state (some status) = not (is_passing_merge_state status)

abbrev part_if : Bool → String → List String
part_if true s = s ∷ []
part_if false s = []

unfoldable pub summarize_lifecycle :
    String
    → String
    → List String
    → List String
    → List ReviewFeedback
    → PullRequestReviewerVerdict
    → List String
    → String
summarize_lifecycle intro url failing pending feedback verdict blocking_keys = join "; " (
    cat (intro ∷ " " ∷ url ∷ [])
    ∷ (part_if (is_nonempty failing) (cat ("failing checks: " ∷ join ", " failing ∷ []))
        ++ (part_if (is_nonempty pending) (cat ("pending checks: " ∷ join ", " pending ∷ []))
            ++ (part_if (is_nonempty feedback)
                  (cat ("actionable feedback: " ∷ show (length feedback) ∷ []))
                ++ part_if (is_blocking verdict) (
                    cat (
                      "reviewer-app verdict: issues found"
                      ∷ (if is_nonempty blocking_keys
                          then cat (" (" ∷ join ", " blocking_keys ∷ ")" ∷ [])
                          else "")
                      ∷ []))))))

-- The default of `summary` is written at the callers that leave it out.
unfoldable pub missing_pull_request_lifecycle : String → String → HandoffLifecycle
missing_pull_request_lifecycle branch_name summary = record {
  kind = missing_target;
  branch_name = branch_name;
  pull_request = none;
  landing_command = none;
  checks = [];
  pending_check_names = [];
  failing_check_names = [];
  actionable_review_feedback = [];
  unresolved_thread_ids = [];
  reviewer_verdict = no_blocking_verdict;
  blocking_reviewer_keys = [];
  required_reviewer_state = not_required;
  summary = summary;
}

-- The fields that every branch below the merged one takes from the snapshot; the branches give the
-- kind, the summary, the feedback and the threads.
unfoldable pub lifecycle_of :
    PullRequestSnapshot
    → HandoffLifecycleKind
    → List ReviewFeedback
    → List String
    → String
    → HandoffLifecycle
lifecycle_of snapshot kind feedback threads summary = record {
  kind = kind;
  branch_name = snapshot.branch_name;
  pull_request = some snapshot.pull_request;
  landing_command = snapshot.landing_command;
  checks = snapshot.checks;
  pending_check_names = snapshot.pending_check_names;
  failing_check_names = snapshot.failing_check_names;
  actionable_review_feedback = feedback;
  unresolved_thread_ids = threads;
  reviewer_verdict = snapshot.reviewer_verdict;
  blocking_reviewer_keys = snapshot.blocking_reviewer_keys;
  required_reviewer_state = snapshot.required_reviewer_state;
  summary = summary;
}

unfoldable pub result : HandoffLifecycle → Option NoCheckObservation → PullRequestPolicyResult
result lifecycle next = record { lifecycle = lifecycle; next_no_check_observation = next }

-- The merged branch.
unfoldable pub merged_lifecycle : PullRequestSnapshot → HandoffLifecycle
merged_lifecycle snapshot = record {
  kind = handoff_ready;
  branch_name = snapshot.branch_name;
  pull_request = some snapshot.pull_request;
  landing_command = snapshot.landing_command;
  checks = snapshot.checks;
  pending_check_names = [];
  failing_check_names = [];
  actionable_review_feedback = [];
  unresolved_thread_ids = [];
  reviewer_verdict = no_blocking_verdict;
  blocking_reviewer_keys = [];
  required_reviewer_state = not_required;
  summary = cat ("Pull request " ∷ snapshot.pull_request.url ∷ " has merged" ∷ []);
}

-- `summarizeLifecycle` at the lists of the snapshot.
unfoldable pub summary_of : String → PullRequestSnapshot → String
summary_of intro snapshot =
    summarize_lifecycle intro snapshot.pull_request.url snapshot.failing_check_names
      snapshot.pending_check_names snapshot.actionable_review_feedback snapshot.reviewer_verdict
      snapshot.blocking_reviewer_keys

-- The second branch's test.
unfoldable pub needs_rework : PullRequestSnapshot → Bool
needs_rework snapshot =
    is_blocking snapshot.reviewer_verdict
    || (is_nonempty snapshot.bot_actionable_review_feedback
        || (is_nonempty snapshot.failing_check_names
            && not (is_nonempty snapshot.pending_check_names)))

unfoldable pub rework_result : PullRequestSnapshot → PullRequestPolicyResult
unfolding result lifecycle_of
rework_result snapshot =
    result
      (lifecycle_of snapshot rework_required snapshot.actionable_review_feedback
        snapshot.unresolved_thread_ids (summary_of "Rework required for" snapshot))
      none

-- The branches on failing and on pending checks build the same result.
unfoldable pub checks_result : PullRequestSnapshot → PullRequestPolicyResult
unfolding result lifecycle_of
checks_result snapshot =
    result
      (lifecycle_of snapshot awaiting_system_checks snapshot.actionable_review_feedback []
        (summary_of "Waiting on checks for" snapshot))
      none

-- A nullable text in a template literal, where it is not null.
abbrev pub or_text : Option String → String
or_text none = "null"
or_text (some s) = s

-- From the test of `draft` to the end.
unfoldable pub evaluate_mergeability :
    PullRequestSnapshot → Option NoCheckObservation → PullRequestPolicyResult
unfolding result lifecycle_of has_bad_merge_state
evaluate_mergeability snapshot previous =
    let url = snapshot.pull_request.url in
    if snapshot.draft
    then result
        (lifecycle_of snapshot rework_required [] []
          (cat ("Pull request " ∷ url ∷ " is still a draft and cannot await /land." ∷ [])))
        previous
    else if not (is_some snapshot.mergeable)
    then result
        (lifecycle_of snapshot awaiting_system_checks [] []
          (cat ("Waiting for GitHub mergeability to settle on " ∷ url ∷ [])))
        previous
    else if not (is_mergeable snapshot.mergeable) || has_bad_merge_state snapshot.merge_state_status
    then result
        (lifecycle_of snapshot rework_required [] [] (
          cat (
            (if not (is_mergeable snapshot.mergeable)
              then "GitHub does not consider the pull request mergeable"
              else cat
                  ("GitHub reports merge state '" ∷ or_text snapshot.merge_state_status ∷ "'" ∷ []))
            ∷ " for "
            ∷ url
            ∷ [])))
        previous
    else result
        (record (lifecycle_of snapshot
          (if snapshot.has_landing_command then awaiting_landing else awaiting_landing_command) []
          []
          (if snapshot.has_landing_command
            then cat ("Pull request " ∷ url ∷ " is awaiting landing / merge observation" ∷ [])
            else cat ("Pull request " ∷ url ∷ " is awaiting an explicit /land command" ∷ []))) {
              pending_check_names = [];
              failing_check_names = [];
            })
        none

abbrev pub observation_of : PullRequestSnapshot → NoCheckObservation
observation_of snapshot = record {
  url = snapshot.pull_request.url;
  latest_commit_at = snapshot.pull_request.latest_commit_at;
}

-- `sawSameNoCheckLifecycle`
unfoldable pub saw_same_no_check_lifecycle : Option NoCheckObservation → PullRequestSnapshot → Bool
saw_same_no_check_lifecycle none snapshot = false
saw_same_no_check_lifecycle (some previous) snapshot =
    previous.url == snapshot.pull_request.url
    && previous.latest_commit_at == snapshot.pull_request.latest_commit_at

-- From the test of the checks' number to that of the reviewer apps.
unfoldable pub evaluate_review_coverage :
    PullRequestSnapshot → Option NoCheckObservation → PullRequestPolicyResult
unfolding result lifecycle_of evaluate_mergeability saw_same_no_check_lifecycle
evaluate_review_coverage snapshot previous =
    let url = snapshot.pull_request.url in
    if not (is_nonempty snapshot.checks) && not (saw_same_no_check_lifecycle previous snapshot)
    then result
        (lifecycle_of snapshot awaiting_system_checks [] []
          (cat ("Waiting for PR checks to appear on " ∷ url ∷ [])))
        (some (observation_of snapshot))
    else if is_missing snapshot.required_reviewer_state
    then result
        (lifecycle_of snapshot degraded_review_infrastructure [] [] (
          cat (
            "Degraded external review infrastructure for " ∷ url
            ∷ "; expected reviewer-app output has not been observed on the current head." ∷ [])))
        previous
    else if is_unknown snapshot.required_reviewer_state
    then result
        (lifecycle_of snapshot degraded_review_infrastructure [] [] (
          cat (
            "Degraded external review infrastructure for " ∷ url
            ∷ "; required reviewer-app output was observed on the current head but no explicit pass verdict was normalized."
            ∷ [])))
        previous
    else evaluate_mergeability snapshot previous

-- From the test of the failing checks to that of the actionable feedback.
unfoldable pub evaluate_waiting :
    PullRequestSnapshot → Option NoCheckObservation → PullRequestPolicyResult
unfolding result lifecycle_of checks_result evaluate_review_coverage
evaluate_waiting snapshot previous =
    let url = snapshot.pull_request.url in
    if is_nonempty snapshot.failing_check_names
    then checks_result snapshot
    else if is_nonempty snapshot.pending_check_names
    then checks_result snapshot
    else if is_running snapshot.required_reviewer_state
    then result
        (lifecycle_of snapshot awaiting_system_checks snapshot.actionable_review_feedback []
          (cat ("Waiting for reviewer apps to finish on " ∷ url ∷ [])))
        none
    else if is_nonempty snapshot.actionable_review_feedback
    then result
        (lifecycle_of snapshot awaiting_human_review snapshot.actionable_review_feedback []
          (cat ("Waiting for human review on " ∷ url ∷ [])))
        none
    else evaluate_review_coverage snapshot previous

unfoldable pub evaluate_pull_request_lifecycle :
    PullRequestSnapshot → Option NoCheckObservation → PullRequestPolicyResult
unfolding result merged_lifecycle needs_rework rework_result evaluate_waiting
evaluate_pull_request_lifecycle snapshot previous =
    if is_merged snapshot.landing_state
    then result (merged_lifecycle snapshot) none
    else if needs_rework snapshot
    then rework_result snapshot
    else evaluate_waiting snapshot previous
