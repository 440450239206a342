-- ===== src/Orchestrator/WorkspaceRetention.antt =====
-- src/orchestrator/workspace-retention.ts, and the operations of service.ts that carry it out: what
-- happens to the workspace of an issue that ended or waits for its retry. The call of the workspace
-- manager is a parameter: its result, or the text of what it threw after `#normalizeFailure`.
pub mod Laws
use symphony_ts.Base.{String, Option, none, some, [], ◌∷◌, ◌⊎◌, inl, inr}
use symphony_ts.Base.Text.{cat}
use symphony_ts.Domain.Workflow.{WorkspaceRetentionPolicy, WorkspaceRetentionMode}

pub data WorkspaceCleanupKind : Type 0 where
  deleted already_absent : WorkspaceCleanupKind

pub record WorkspaceCleanupResult : Type 0 where
  pub kind : WorkspaceCleanupKind
  pub workspace_path : String

pub data WorkspaceRetentionReason : Type 0 where
  success failure retry : WorkspaceRetentionReason

pub data WorkspaceRetentionState : Type 0 where
  retry_retained terminal_retained : WorkspaceRetentionState
  cleanup_requested cleanup_succeeded cleanup_failed : WorkspaceRetentionState

pub data WorkspaceRetentionAction : Type 0 where
  retain cleanup : WorkspaceRetentionAction

-- Both decisions have these fields, and `action` tells them apart.
pub record WorkspaceRetentionDecision : Type 0 where
  pub reason : WorkspaceRetentionReason
  pub state : WorkspaceRetentionState
  pub action : WorkspaceRetentionAction

pub record WorkspaceRetentionOutcome : Type 0 where
  pub reason : WorkspaceRetentionReason
  pub state : WorkspaceRetentionState
  pub action : WorkspaceRetentionAction
  pub cleanup_result : Option WorkspaceCleanupResult
  pub cleanup_error : Option String

-- `"success" | "failure"`.
pub data TerminalOutcome : Type 0 where
  succeeded failed : TerminalOutcome

unfoldable pub to_reason : TerminalOutcome → WorkspaceRetentionReason
to_reason succeeded = success
to_reason failed = failure

unfoldable pub decide_retry_workspace_retention : WorkspaceRetentionDecision
decide_retry_workspace_retention = record {
  reason = retry;
  state = retry_retained;
  action = retain;
}

unfoldable pub mode_of : WorkspaceRetentionPolicy → TerminalOutcome → WorkspaceRetentionMode
mode_of policy succeeded = policy.on_success
mode_of policy failed = policy.on_failure

unfoldable pub decide_in_mode :
    WorkspaceRetentionMode → TerminalOutcome → WorkspaceRetentionDecision
decide_in_mode WorkspaceRetentionMode.retain outcome = record {
  reason = to_reason outcome;
  state = terminal_retained;
  action = retain;
}
decide_in_mode WorkspaceRetentionMode.delete outcome = record {
  reason = to_reason outcome;
  state = cleanup_requested;
  action = cleanup;
}

unfoldable pub decide_terminal_workspace_retention :
    WorkspaceRetentionPolicy → TerminalOutcome → WorkspaceRetentionDecision
decide_terminal_workspace_retention policy outcome = decide_in_mode (mode_of policy outcome) outcome

unfoldable pub classify_workspace_cleanup_success :
    WorkspaceRetentionDecision → WorkspaceCleanupResult → WorkspaceRetentionOutcome
classify_workspace_cleanup_success decision cleanup_result = record {
  reason = decision.reason;
  state = cleanup_succeeded;
  action = cleanup;
  cleanup_result = some cleanup_result;
  cleanup_error = none;
}

unfoldable pub classify_workspace_cleanup_failure :
    WorkspaceRetentionDecision → String → WorkspaceRetentionOutcome
classify_workspace_cleanup_failure decision cleanup_error = record {
  reason = decision.reason;
  state = cleanup_failed;
  action = cleanup;
  cleanup_result = none;
  cleanup_error = some cleanup_error;
}

unfoldable pub finalize_retained_workspace : WorkspaceRetentionDecision → WorkspaceRetentionOutcome
finalize_retained_workspace decision = record {
  reason = decision.reason;
  state = decision.state;
  action = retain;
  cleanup_result = none;
  cleanup_error = none;
}

unfoldable pub classify_cleanup :
    WorkspaceRetentionDecision → WorkspaceCleanupResult ⊎ String → WorkspaceRetentionOutcome
classify_cleanup decision (inl cleanup_result) =
    classify_workspace_cleanup_success decision cleanup_result
classify_cleanup decision (inr cleanup_error) =
    classify_workspace_cleanup_failure decision cleanup_error

unfoldable pub carry_out :
    WorkspaceRetentionDecision
    → WorkspaceRetentionAction
    → WorkspaceCleanupResult ⊎ String
    → WorkspaceRetentionOutcome
carry_out decision retain cleaned = finalize_retained_workspace decision
carry_out decision cleanup cleaned = classify_cleanup decision cleaned

-- `cleaned` is what the cleanup gives where it is called.
unfoldable pub apply_terminal_workspace_policy :
    WorkspaceRetentionPolicy
    → TerminalOutcome
    → WorkspaceCleanupResult ⊎ String
    → WorkspaceRetentionOutcome
apply_terminal_workspace_policy policy outcome cleaned =
    let decision = decide_terminal_workspace_retention policy outcome in
    carry_out decision decision.action cleaned

unfoldable pub summarize_kind : WorkspaceCleanupKind → String
summarize_kind deleted = "workspace cleaned"
summarize_kind already_absent = "workspace cleanup skipped because the workspace was already absent"

unfoldable pub summarize_cleaned : Option WorkspaceCleanupResult → String
summarize_cleaned none = "workspace cleaned"
summarize_cleaned (some cleanup_result) = summarize_kind cleanup_result.kind

unfoldable pub error_text : Option String → String
error_text none = "unknown error"
error_text (some error) = error

-- A switch over four states: the fifth, a request, is not one of an outcome.
unfoldable pub summarize_state : WorkspaceRetentionState → WorkspaceRetentionOutcome → Option String
summarize_state retry_retained retention = some "workspace retained for retry"
summarize_state terminal_retained retention = some "workspace retained by policy"
summarize_state cleanup_succeeded retention = some (summarize_cleaned retention.cleanup_result)
summarize_state cleanup_failed retention =
    some (cat ("workspace cleanup failed: " ∷ error_text retention.cleanup_error ∷ []))
summarize_state cleanup_requested retention = none

unfoldable pub summarize_workspace_retention : WorkspaceRetentionOutcome → Option String
summarize_workspace_retention retention = summarize_state retention.state retention
