-- ===== src/Orchestrator/WorkspaceRetention/Laws.antt =====
-- What the retention policy of a workspace does, for workspace-retention.ts.
use symphony_ts.Base.{String, none, some, ◌≢◌, ◌⊎◌, inl, inr}
use symphony_ts.Domain.Workflow.{WorkspaceRetentionPolicy, WorkspaceRetentionMode}
use symphony_ts.Orchestrator.WorkspaceRetention.{
  TerminalOutcome, WorkspaceCleanupResult, WorkspaceRetentionOutcome, to_reason, mode_of, retain,
  cleanup, terminal_retained, cleanup_succeeded, cleanup_failed, decide_in_mode, carry_out,
  summarize_state, classify_cleanup, classify_workspace_cleanup_success,
  classify_workspace_cleanup_failure, finalize_retained_workspace,
  decide_terminal_workspace_retention, apply_terminal_workspace_policy,
  summarize_workspace_retention,
}

-- The outcome that a mode of retention asks for, given what a cleanup would give.
pub data Obeys (outcome : TerminalOutcome)
    : WorkspaceRetentionMode
      → WorkspaceCleanupResult ⊎ String
      → WorkspaceRetentionOutcome
      → Type 0 where
  kept :
      {cleaned : WorkspaceCleanupResult ⊎ String}
      → Obeys outcome WorkspaceRetentionMode.retain cleaned (record {
        reason = to_reason outcome;
        state = terminal_retained;
        action = retain;
        cleanup_result = none;
        cleanup_error = none;
      })
  removed :
      {cleanup_result : WorkspaceCleanupResult}
      → Obeys outcome WorkspaceRetentionMode.delete (inl cleanup_result) (record {
        reason = to_reason outcome;
        state = cleanup_succeeded;
        action = cleanup;
        cleanup_result = some cleanup_result;
        cleanup_error = none;
      })
  not_removed :
      {error : String}
      → Obeys outcome WorkspaceRetentionMode.delete (inr error) (record {
        reason = to_reason outcome;
        state = cleanup_failed;
        action = cleanup;
        cleanup_result = none;
        cleanup_error = some error;
      })

decided-Obeys :
    (mode : WorkspaceRetentionMode) (outcome : TerminalOutcome)
    (cleaned : WorkspaceCleanupResult ⊎ String)
    → Obeys outcome mode cleaned
        (carry_out (decide_in_mode mode outcome) (decide_in_mode mode outcome).action cleaned)
unfolding decide_in_mode carry_out classify_cleanup finalize_retained_workspace
    classify_workspace_cleanup_success classify_workspace_cleanup_failure
decided-Obeys WorkspaceRetentionMode.retain outcome cleaned = kept
decided-Obeys WorkspaceRetentionMode.delete outcome (inl cleanup_result) = removed
decided-Obeys WorkspaceRetentionMode.delete outcome (inr error) = not_removed

-- The outcome for a workspace whose issue ended is that of the configured mode: the workspace is
-- kept with no cleanup in it, or cleaned up with the result or the error of the cleanup.
pub apply-Obeys :
    (policy : WorkspaceRetentionPolicy) (outcome : TerminalOutcome)
    (cleaned : WorkspaceCleanupResult ⊎ String)
    → Obeys outcome
        (mode_of policy outcome)
        cleaned
        (apply_terminal_workspace_policy policy outcome cleaned)
unfolding apply_terminal_workspace_policy decide_terminal_workspace_retention
apply-Obeys policy outcome cleaned = decided-Obeys (mode_of policy outcome) outcome cleaned

Obeys-summary :
    (outcome : TerminalOutcome) (mode : WorkspaceRetentionMode)
    (cleaned : WorkspaceCleanupResult ⊎ String) (retention : WorkspaceRetentionOutcome)
    → Obeys outcome mode cleaned retention
    → summarize_workspace_retention retention ≢ none
unfolding summarize_workspace_retention summarize_state
Obeys-summary outcome mode cleaned retention kept = λ e. cc
Obeys-summary outcome mode cleaned retention removed = λ e. cc
Obeys-summary outcome mode cleaned retention not_removed = λ e. cc

-- Every such outcome has a summary: none is left in the state of a request.
pub apply-summary :
    (policy : WorkspaceRetentionPolicy) (outcome : TerminalOutcome)
    (cleaned : WorkspaceCleanupResult ⊎ String)
    → summarize_workspace_retention (apply_terminal_workspace_policy policy outcome cleaned) ≢ none
apply-summary policy outcome cleaned =
    Obeys-summary outcome (mode_of policy outcome) cleaned
      (apply_terminal_workspace_policy policy outcome cleaned) (apply-Obeys policy outcome cleaned)
