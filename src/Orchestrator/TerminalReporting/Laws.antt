-- ===== src/Orchestrator/TerminalReporting/Laws.antt =====
-- The backoff of the reports, over a series of failed attempts.
use symphony_ts.Base.{
  ℕ, ◌+◌, ◌-◌, ◌*◌, ◌^◌, ◌≡◌, refl, List, [], ◌∷◌, arith, leb, min, or_else, if◌then◌else◌, nat_eq,
  length,
}
use symphony_ts.Base.Dict
use symphony_ts.Base.Dict.Laws.{get-set_same, get-delete}
use symphony_ts.Orchestrator.TerminalReporting.{
  TerminalIssueReportingRuntimeState, clear_terminal_issue_reporting_state,
  is_terminal_issue_reporting_due, delay_ms, schedule_terminal_issue_reporting_retry,
}

abbrev pub attempts : TerminalIssueReportingRuntimeState → ℕ → ℕ
attempts state n = or_else (Dict.get state.retry_attempt_count_by_issue_number n) 0

-- Failed attempts of one issue at the given times.
unfoldable pub fail_at :
    TerminalIssueReportingRuntimeState → ℕ → ℕ → ℕ → List ℕ → TerminalIssueReportingRuntimeState
fail_at state n base bound [] = state
fail_at state n base bound (now ∷ times) =
    fail_at (schedule_terminal_issue_reporting_retry state n now base bound).1 n base bound times

exponent : (count : ℕ) → count + 1 - 1 ≡ count
exponent count = omega arith

fail_at-attempts :
    (state : TerminalIssueReportingRuntimeState) (n base bound : ℕ) (times : List ℕ)
    → attempts (fail_at state n base bound times) n ≡ attempts state n + length times
unfolding fail_at
fail_at-attempts state n base bound [] = omega arith
fail_at-attempts state n base bound (now ∷ times) =
    let next = (schedule_terminal_issue_reporting_retry state n now base bound).1 in
    let one : attempts next n ≡ attempts state n + 1 =
      unfold schedule_terminal_issue_reporting_retry in
      rw (get-set_same state.retry_attempt_count_by_issue_number n (attempts state n + 1)) refl in
    omega (arith, one, fail_at-attempts next n base bound times)

clear-attempts :
    (state : TerminalIssueReportingRuntimeState) (n : ℕ)
    → attempts (clear_terminal_issue_reporting_state state n) n ≡ 0
unfolding clear_terminal_issue_reporting_state
clear-attempts state n = ground (arith, get-delete state.retry_attempt_count_by_issue_number n n)

due-schedule :
    (state : TerminalIssueReportingRuntimeState) (n base bound now later count : ℕ)
    → attempts state n ≡ count
    → is_terminal_issue_reporting_due
        (schedule_terminal_issue_reporting_retry state n now base bound).1
        n
        later
      ≡ leb (now + (if leb base 0 then 0 else min (base * 2 ^ count) bound)) later
unfolding is_terminal_issue_reporting_due schedule_terminal_issue_reporting_retry delay_ms
due-schedule state n base bound now later count h =
    rw (get-set_same state.retry_due_at_ms_by_issue_number n _, h, exponent count) refl

-- After an issue was cleared and then failed at some times, a further failure sets the next attempt
-- to the time of the failure and the base delay doubled once for each of the earlier failures, cut
-- at the bound: at that time the issue is due, and at no earlier time. With no base delay it is due
-- at once.
pub schedule-fail_at :
    (state : TerminalIssueReportingRuntimeState) (n base bound now later : ℕ) (times : List ℕ)
    → let failed = fail_at (clear_terminal_issue_reporting_state state n) n base bound times in
      is_terminal_issue_reporting_due
        (schedule_terminal_issue_reporting_retry failed n now base bound).1
        n
        later
      ≡ leb (now + (if leb base 0 then 0 else min (base * 2 ^ length times) bound)) later
schedule-fail_at state n base bound now later times =
    let cleared = clear_terminal_issue_reporting_state state n in
    let count = fail_at-attempts cleared n base bound times in
    let none_before = clear-attempts state n in
    due-schedule (fail_at cleared n base bound times) n base bound now later (length times)
      (omega arith)
