-- ===== src/Orchestrator/TerminalReporting.antt =====
-- src/orchestrator/terminal-reporting-state.ts: which finished issues wait for their report, and
-- when the next attempt is due. `now` is an argument; `date_parse` stands for `Date.parse`.
pub mod Laws
use symphony_ts.Base.{
  ℕ, ◌+◌, ◌-◌, ◌*◌, ◌^◌, String, Bool, true, false, List, [], Option, none, some, leb, ltb, min,
  or_else, if◌then◌else◌, nat_eq, ◌&&◌, is_some,
}
use symphony_ts.Base.Dict
use symphony_ts.Base.Dict.{Dict}
use symphony_ts.Base.Sets.{add, remove}

pub record TerminalIssueReportingRuntimeState : Type 0 where
  pub queued_issue_numbers : List ℕ
  pub retry_due_at_ms_by_issue_number : Dict ℕ ℕ
  pub retry_attempt_count_by_issue_number : Dict ℕ ℕ
  pub backlog_scanned : Bool

unfoldable pub create_terminal_issue_reporting_runtime_state : TerminalIssueReportingRuntimeState
create_terminal_issue_reporting_runtime_state = record {
  queued_issue_numbers = [];
  retry_due_at_ms_by_issue_number = [];
  retry_attempt_count_by_issue_number = [];
  backlog_scanned = false;
}

unfoldable pub clear_terminal_issue_reporting_state :
    TerminalIssueReportingRuntimeState → ℕ → TerminalIssueReportingRuntimeState
clear_terminal_issue_reporting_state state issue_number = record state {
  queued_issue_numbers = remove state.queued_issue_numbers issue_number;
  retry_due_at_ms_by_issue_number = Dict.delete state.retry_due_at_ms_by_issue_number issue_number;
  retry_attempt_count_by_issue_number =
      Dict.delete state.retry_attempt_count_by_issue_number issue_number;
}

unfoldable pub enqueue_terminal_issue_reporting :
    TerminalIssueReportingRuntimeState → ℕ → TerminalIssueReportingRuntimeState
enqueue_terminal_issue_reporting state issue_number = record state {
  queued_issue_numbers = add state.queued_issue_numbers issue_number;
}

abbrev pub due_by : Option ℕ → ℕ → Bool
due_by none now = true
due_by (some due_at) now = leb due_at now

unfoldable pub is_terminal_issue_reporting_due : TerminalIssueReportingRuntimeState → ℕ → ℕ → Bool
is_terminal_issue_reporting_due state issue_number now =
    due_by (Dict.get state.retry_due_at_ms_by_issue_number issue_number) now

module _ (date_parse : String → Option ℕ) where
  abbrev pub seeded_due_at : Option ℕ → ℕ → ℕ → ℕ
  seeded_due_at none base_backoff_ms now = now
  seeded_due_at (some updated_at_ms) base_backoff_ms now =
      if ltb 0 base_backoff_ms then updated_at_ms + base_backoff_ms else now

  unfoldable pub seed_terminal_issue_reporting_backoff :
      TerminalIssueReportingRuntimeState → ℕ → String → ℕ → ℕ → TerminalIssueReportingRuntimeState
  seed_terminal_issue_reporting_backoff state issue_number updated_at base_backoff_ms now =
      record state {
        retry_attempt_count_by_issue_number =
            Dict.set state.retry_attempt_count_by_issue_number issue_number 1;
        retry_due_at_ms_by_issue_number =
            Dict.set state.retry_due_at_ms_by_issue_number issue_number
              (seeded_due_at (date_parse updated_at) base_backoff_ms now);
        queued_issue_numbers = add state.queued_issue_numbers issue_number;
      }

-- The exponential backoff, in exact arithmetic where the code has doubles.
unfoldable pub delay_ms : ℕ → ℕ → ℕ → ℕ
delay_ms next_attempt base_backoff_ms max_backoff_ms =
    if leb base_backoff_ms 0
    then 0
    else min (base_backoff_ms * 2 ^ (next_attempt - 1)) max_backoff_ms

unfoldable pub schedule_terminal_issue_reporting_retry :
    TerminalIssueReportingRuntimeState → ℕ → ℕ → ℕ → ℕ → ℕ × TerminalIssueReportingRuntimeState
unfolding delay_ms
schedule_terminal_issue_reporting_retry state issue_number now base_backoff_ms max_backoff_ms =
    let next_attempt =
      or_else (Dict.get state.retry_attempt_count_by_issue_number issue_number) 0 + 1 in
    let due_at = now + delay_ms next_attempt base_backoff_ms max_backoff_ms in
    (
      due_at,
      record state {
        retry_attempt_count_by_issue_number =
            Dict.set state.retry_attempt_count_by_issue_number issue_number next_attempt;
        retry_due_at_ms_by_issue_number =
            Dict.set state.retry_due_at_ms_by_issue_number issue_number due_at;
        queued_issue_numbers = add state.queued_issue_numbers issue_number;
      },
    )
