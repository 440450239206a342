-- ===== src/Tracker/Linear.antt =====
-- src/tracker/linear-policy.ts, linear-state-name.ts and linear-queue-priority.ts: what the state, the
-- workpad and the comments of a Linear issue mean. `localeCompare` that ignores case is a parameter.
pub mod Lifecycle
pub mod Laws
use Prim.Native.Char.{code}
use Prim.Native.String
use symphony_ts.Base.{
  ℕ, suc, ◌+◌, ◌*◌, ◌-◌, String, Bool, true, false, not, ◌&&◌, ◌||◌, List, [], ◌∷◌, map, filter,
  any, Option, none, some, if◌then◌else◌, leb, is_some, or_else, ◌==◌, nat_eq, string_eq,
}
use symphony_ts.Base.Int.{ℤ, pos, sub_ℕ}
use symphony_ts.Base.Lines.{is_empty}
use symphony_ts.Base.Sort.{sort_by}
use symphony_ts.Base.Text.{cat}
use symphony_ts.Domain.Handoff.{
  HandoffLifecycle, HandoffLifecycleKind, missing_target, awaiting_human_review, rework_required,
  awaiting_landing_command, no_blocking_verdict, not_required,
}
use symphony_ts.Domain.Handoff
use symphony_ts.Domain.Issue.{QueuePriority}
use symphony_ts.Domain.Workflow.{QueuePriorityConfig}
use symphony_ts.Domain.PlanReview.{
  PlanReviewProtocol, PlanReviewSignal, decided, changes_requested, approved, waived,
}
use symphony_ts.Tracker.TextEngine.{TextEngine, first_such}
use symphony_ts.Tracker.PlanReview.{parse_plan_review_signal, parsed, last_of}

pub data LinearIssueClassification : Type 0 where
  ready running failed completed ignored : LinearIssueClassification

pub data LinearWorkpadStatus : Type 0 where
  running retry_scheduled failed handoff_ready completed : LinearWorkpadStatus

pub record LinearWorkpadEntry : Type 0 where
  pub status : LinearWorkpadStatus
  pub summary : String
  pub branch_name : Option String
  pub updated_at : String

pub record LinearWorkflowState : Type 0 where
  pub id : String
  pub name : String
  pub state_type : String
  pub position : ℕ

pub record LinearComment : Type 0 where
  pub id : String
  pub body : String
  pub created_at : String
  pub user_name : Option String
  pub user_email : Option String

-- The fields of the snapshot that the policy reads.
pub record LinearIssueSnapshot : Type 0 where
  pub identifier : String
  pub state : LinearWorkflowState
  pub assigned_to_worker : Bool
  pub comments : List LinearComment
  pub workpad : Option LinearWorkpadEntry

pub record LinearProjectSnapshot : Type 0 where
  pub slug_id : String
  pub states : List LinearWorkflowState

-- The fields of the configuration that the policy reads; the protocol is the configured or the
-- default one.
pub record LinearTrackerConfig : Type 0 where
  pub project_slug : String
  pub active_states : List String
  pub terminal_states : List String
  pub plan_review : PlanReviewProtocol

abbrev pub human_review_state_name : String
human_review_state_name = "Human Review"

abbrev pub rework_state_name : String
rework_state_name = "Rework"

abbrev pub merging_state_name : String
merging_state_name = "Merging"

-- `issue.workpad?.status === status`, by status.
abbrev pub has_completed : Option LinearWorkpadEntry → Bool
has_completed none = false
has_completed (some entry) = elim entry.status [ LinearWorkpadStatus.completed ↦ true | _ ↦ false ]

abbrev pub has_failed : Option LinearWorkpadEntry → Bool
has_failed none = false
has_failed (some entry) = elim entry.status [ LinearWorkpadStatus.failed ↦ true | _ ↦ false ]

abbrev pub has_handoff_marker : Option LinearWorkpadEntry → Bool
has_handoff_marker none = false
has_handoff_marker (some entry) = elim entry.status [
  | LinearWorkpadStatus.handoff_ready ↦ true
  | _ ↦ false
]

abbrev pub is_supervised : Option LinearWorkpadEntry → Bool
is_supervised none = false
is_supervised (some entry) = elim entry.status [
  | LinearWorkpadStatus.running ↦ true
  | retry_scheduled ↦ true
  | LinearWorkpadStatus.handoff_ready ↦ true
  | _ ↦ false
]

unfoldable pub linear_lifecycle : HandoffLifecycleKind → String → String → HandoffLifecycle
linear_lifecycle kind branch_name summary = record {
  kind = kind;
  branch_name = branch_name;
  pull_request = none;
  landing_command = none;
  checks = [];
  pending_check_names = [];
  failing_check_names = [];
  actionable_review_feedback = [];
  unresolved_thread_ids = [];
  reviewer_verdict = no_blocking_verdict;
  blocking_reviewer_keys = [];
  required_reviewer_state = not_required;
  summary = summary;
}

unfoldable pub missing_linear_lifecycle : String → String → HandoffLifecycle
unfolding linear_lifecycle
missing_linear_lifecycle branch_name summary = linear_lifecycle missing_target branch_name summary

unfoldable pub linear_tracker_subject : LinearTrackerConfig → String
linear_tracker_subject config = cat ("linear/" ∷ config.project_slug ∷ [])

abbrev linear_queue_priority_label : ℕ → Option String
linear_queue_priority_label value =
    if value == 1
    then some "Urgent"
    else if value == 2
    then some "High"
    else if value == 3
    then some "Normal"
    else if value == 4
    then some "Low"
    else none

abbrev labelled_priority : ℕ → Option String → Option QueuePriority
labelled_priority value none = none
labelled_priority value (some label) = some (record { rank = pos value; label = some label })

unfoldable pub normalize_linear_queue_priority :
    Option ℕ → Option QueuePriorityConfig → Option QueuePriority
normalize_linear_queue_priority (some value) (some config) =
    if config.enabled then labelled_priority value (linear_queue_priority_label value) else none
normalize_linear_queue_priority _ _ = none

abbrev state_name : Option LinearWorkflowState → Option String
state_name none = none
state_name (some state) = some state.name

module _ (compare_names : String → String → ℤ) where
  abbrev is_zero : ℤ → Bool
  is_zero (pos n) = n == 0
  is_zero _ = false

  unfoldable pub same_linear_state_name : String → String → Bool
  same_linear_state_name left right = is_zero (compare_names left right)

  unfoldable pub matches_configured_state_name : List String → String → Bool
  unfolding same_linear_state_name
  matches_configured_state_name configured state_name =
      any (λ candidate. same_linear_state_name candidate state_name) configured

  unfoldable pub is_linear_review_workflow_state : String → Bool
  unfolding same_linear_state_name
  is_linear_review_workflow_state state_name =
      same_linear_state_name state_name human_review_state_name
      || (same_linear_state_name state_name rework_state_name
          || same_linear_state_name state_name merging_state_name)

  unfoldable pub is_linear_terminal_workflow_state : String → LinearTrackerConfig → Bool
  unfolding matches_configured_state_name
  is_linear_terminal_workflow_state state_name config =
      matches_configured_state_name config.terminal_states state_name

  unfoldable pub classify_linear_issue :
      LinearIssueSnapshot → LinearTrackerConfig → LinearIssueClassification
  unfolding matches_configured_state_name is_linear_review_workflow_state
  classify_linear_issue issue config =
      let name = issue.state.name in
      if not issue.assigned_to_worker
      then LinearIssueClassification.ignored
      else if has_completed issue.workpad
      then LinearIssueClassification.completed
      else if matches_configured_state_name config.terminal_states name
      then LinearIssueClassification.running
      else if has_failed issue.workpad && not (is_linear_review_workflow_state name)
      then LinearIssueClassification.failed
      else if is_supervised issue.workpad || is_linear_review_workflow_state name
      then LinearIssueClassification.running
      else if matches_configured_state_name config.active_states name
      then LinearIssueClassification.ready
      else LinearIssueClassification.ignored

  -- The state after the first one with the name: none where there is no such state, or none after it.
  unfoldable pub next_state : List String → String → Option String
  unfolding same_linear_state_name
  next_state [] name = none
  next_state (x ∷ xs) name =
      let later = next_state xs name in
      if same_linear_state_name x name then elim xs [ [] ↦ none | y ∷ ys ↦ some y ] else later

  abbrev unless_same : String → Option String → Option String
  unless_same name none = none
  unless_same name (some next) = if same_linear_state_name next name then none else some next

  unfoldable pub resolve_linear_claim_state_name :
      LinearIssueSnapshot → LinearTrackerConfig → Option String
  unfolding next_state same_linear_state_name
  resolve_linear_claim_state_name issue config =
      unless_same issue.state.name (next_state config.active_states issue.state.name)

  unfoldable pub find_project_state_name : LinearProjectSnapshot → String → Option String
  unfolding same_linear_state_name
  find_project_state_name project configured =
      state_name (first_such (λ state. same_linear_state_name state.name configured) project.states)

  -- The first configured terminal state that the project has; none where the source throws.
  unfoldable pub resolve_terminal_state : LinearProjectSnapshot → List String → Option String
  unfolding find_project_state_name
  resolve_terminal_state project [] = none
  resolve_terminal_state project (configured ∷ rest) =
      elim (find_project_state_name project configured) [
        | none ↦ resolve_terminal_state project rest
        | some name ↦ some name
      ]

  unfoldable pub resolve_linear_terminal_state_name :
      LinearProjectSnapshot → LinearTrackerConfig → Option String
  unfolding resolve_terminal_state
  resolve_linear_terminal_state_name project config =
      resolve_terminal_state project config.terminal_states

  unfoldable pub resolve_linear_human_review_state_name : LinearProjectSnapshot → Option String
  unfolding find_project_state_name
  resolve_linear_human_review_state_name project =
      find_project_state_name project human_review_state_name
