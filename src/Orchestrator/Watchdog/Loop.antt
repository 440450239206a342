-- ===== src/Orchestrator/Watchdog/Loop.antt =====
-- The watchdog of src/orchestrator/service.ts: the loop of one run, and the recovery.
use symphony_ts.Base.{
  ℕ, ◌+◌, String, Bool, true, false, not, ◌||◌, List, [], ◌∷◌, Option, none, some, if◌then◌else◌,
  nat_eq,
}
use symphony_ts.Base.Int.{ℤ, pos, negsuc}
use symphony_ts.Base.Text.{cat, show}
use symphony_ts.Base.Dict
use symphony_ts.Base.Dict.{Dict}
use symphony_ts.Domain.Workflow.{WatchdogConfig}
use symphony_ts.Orchestrator.StallDetector.{
  StallReason, log_stall, workspace_stall, pr_stall, LivenessSource, run_start, runner_startup,
  runner_heartbeat, runner_action, watchdog_log, workspace_diff, pr_head, LivenessSnapshot,
  WatchdogEntry, StallCheckResult, check_stall, can_recover,
}
use symphony_ts.Orchestrator.Watchdog.{
  WatchdogAbortReason, WatchdogRuntimeState, note_watchdog_abort_reason,
  clear_watchdog_abort_reason, share_entry, record_watchdog_recovery, init_watchdog_entry,
  clear_active_watchdog_entry,
}

abbrev reason_text : StallReason → String
reason_text log_stall = "log-stall"
reason_text workspace_stall = "workspace-stall"
reason_text pr_stall = "pr-stall"

abbrev source_text : Option LivenessSource → String
source_text none = "unknown"
source_text (some run_start) = "run-start"
source_text (some runner_startup) = "runner-startup"
source_text (some runner_heartbeat) = "runner-heartbeat"
source_text (some runner_action) = "runner-action"
source_text (some watchdog_log) = "watchdog-log"
source_text (some workspace_diff) = "workspace-diff"
source_text (some pr_head) = "pr-head"

abbrev show_ℤ : ℤ → String
show_ℤ (pos n) = show n
show_ℤ (negsuc n) = cat ("-" ∷ show (n + 1) ∷ [])

-- What ends the loop, or that it sleeps on when the probes of the run are used up.
pub data WatchdogEnd : Type 0 where
  still_watching run_stopped recovered recovery_limit : WatchdogEnd

-- One turn of the loop: whether the stop signal has fired when the sleep ends, what the liveness
-- probe captures (none where it throws), and the time texts of `new Date()`.
pub record WatchdogTick : Type 0 where
  pub aborted : Bool
  pub captured : Option LivenessSnapshot
  pub observed_at : String

pub data WatchdogTurn : Type 0 where
  goes_on : WatchdogRuntimeState → WatchdogEntry → WatchdogTurn
  ends : WatchdogRuntimeState → WatchdogEnd → WatchdogTurn

-- The rest of the loop, where the turn does not break out of it.
abbrev pub follow :
    WatchdogTurn
    → (WatchdogRuntimeState → WatchdogEntry → WatchdogRuntimeState × WatchdogEnd)
    → WatchdogRuntimeState × WatchdogEnd
follow (goes_on state entry) rest = rest state entry
follow (ends state end) rest = (state, end)

-- The end of a run clears the entry, in the `finally` block around it.
abbrev pub finish_watch : WatchdogRuntimeState → ℕ → WatchdogRuntimeState
finish_watch state issue_number = clear_active_watchdog_entry state issue_number

module _ (date_parse : String → Option ℕ) (to_iso : ℕ → String) (config : WatchdogConfig) where
  unfoldable pub format_watchdog_abort_summary : ℕ → StallReason → StallCheckResult → Bool → String
  format_watchdog_abort_summary issue_number reason result recovery_exhausted = cat (
      "Stall detected ("
      ∷ reason_text reason
      ∷ ") for issue #"
      ∷ show issue_number
      ∷ " after "
      ∷ show_ℤ result.stalled_for_ms
      ∷ "ms since "
      ∷ source_text result.last_observable_activity_source
      ∷ " at "
      ∷ to_iso result.last_observable_activity_at
      ∷ "; "
      ∷ (if recovery_exhausted
          then "recovery limit reached, aborting"
          else "aborting runner for retry")
      ∷ [])

  unfoldable pub abort_reason :
      ℕ → StallReason → StallCheckResult → String → Bool → WatchdogAbortReason
  unfolding format_watchdog_abort_summary
  abort_reason issue_number reason result observed_at exhausted = record {
    reason = reason;
    summary = format_watchdog_abort_summary issue_number reason result exhausted;
    observed_at = observed_at;
    recovery_exhausted = exhausted;
    last_observable_activity_at = result.last_observable_activity_at;
    last_observable_activity_source = result.last_observable_activity_source;
  }

  -- `#recoverStalledRunner`, at the entry that the map holds.
  unfoldable pub recover_stalled_runner :
      WatchdogRuntimeState
      → ℕ
      → StallReason
      → StallCheckResult
      → String
      → Option WatchdogEntry
      → WatchdogRuntimeState
  unfolding record_watchdog_recovery note_watchdog_abort_reason abort_reason
  recover_stalled_runner state issue_number reason result observed_at none = state
  recover_stalled_runner state issue_number reason result observed_at (some entry) =
      note_watchdog_abort_reason (record_watchdog_recovery state entry).1.0 issue_number
        (abort_reason issue_number reason result observed_at false)

  -- The branch on a stalled check: recovery, or the limit.
  unfoldable pub handle_stall :
      WatchdogRuntimeState
      → ℕ
      → WatchdogEntry
      → StallReason
      → StallCheckResult
      → String
      → WatchdogRuntimeState × WatchdogEnd
  unfolding recover_stalled_runner note_watchdog_abort_reason abort_reason can_recover
  handle_stall state issue_number entry reason result observed_at =
      if can_recover entry config
      then (
        recover_stalled_runner state issue_number reason result observed_at
            (Dict.get state.active_entries issue_number),
        recovered,
      )
      else (
        note_watchdog_abort_reason state issue_number
            (abort_reason issue_number reason result observed_at true),
        recovery_limit,
      )

  -- After a check of the liveness, with the entry that the check left.
  unfoldable pub after_check :
      WatchdogRuntimeState
      → ℕ
      → WatchdogEntry
      → StallCheckResult
      → Option StallReason
      → String
      → WatchdogTurn
  unfolding handle_stall
  after_check state issue_number entry result none observed_at = goes_on state entry
  after_check state issue_number entry result (some reason) observed_at =
      let (after, end) = handle_stall state issue_number entry reason result observed_at in
      if result.stalled then ends after end else goes_on state entry

  unfoldable pub after_capture :
      WatchdogRuntimeState → ℕ → WatchdogEntry → Option LivenessSnapshot → String → WatchdogTurn
  unfolding after_check share_entry check_stall
  after_capture state issue_number entry none observed_at = goes_on state entry
  after_capture state issue_number entry (some snapshot) observed_at =
      let (result, checked) = check_stall date_parse entry snapshot config in
      after_check (share_entry state checked) issue_number checked result result.reason observed_at

  -- The body of the `while` loop, from the end of the sleep.
  unfoldable pub watchdog_turn :
      WatchdogRuntimeState → ℕ → WatchdogEntry → WatchdogTick → WatchdogTurn
  unfolding after_capture
  watchdog_turn state issue_number entry tick =
      if tick.aborted
      then ends state run_stopped
      else after_capture state issue_number entry tick.captured tick.observed_at

  -- The `while` loop over the turns of one run.
  unfoldable pub watchdog_loop :
      WatchdogRuntimeState
      → ℕ
      → WatchdogEntry
      → List WatchdogTick
      → WatchdogRuntimeState × WatchdogEnd
  unfolding watchdog_turn
  watchdog_loop state issue_number entry [] = (state, still_watching)
  watchdog_loop state issue_number entry (tick ∷ ticks) =
      follow (watchdog_turn state issue_number entry tick)
        (λ after changed. watchdog_loop after issue_number changed ticks)

  -- `#runWatchdogLoop`: the entry is the one that the map holds when the loop starts.
  unfoldable pub run_watchdog_loop :
      WatchdogRuntimeState → ℕ → List WatchdogTick → WatchdogRuntimeState × WatchdogEnd
  unfolding watchdog_loop
  run_watchdog_loop state issue_number ticks =
      if not config.enabled
      then (state, run_stopped)
      else loop_from (Dict.get state.active_entries issue_number)
    where
      loop_from : Option WatchdogEntry → WatchdogRuntimeState × WatchdogEnd
      loop_from none = (state, run_stopped)
      loop_from (some entry) = watchdog_loop state issue_number entry ticks

  -- `#initWatchdogEntry`, where the liveness probe is given.
  unfoldable pub init_watchdog : WatchdogRuntimeState → ℕ → LivenessSnapshot → WatchdogRuntimeState
  unfolding clear_watchdog_abort_reason init_watchdog_entry
  init_watchdog state issue_number snapshot =
      if not config.enabled || Dict.has state.active_entries issue_number
      then state
      else (init_watchdog_entry date_parse (clear_watchdog_abort_reason state issue_number)
          issue_number snapshot).1

  -- The watchdog's part in one run of `executeIssueRun`: the entry is made, the loop runs, and the
  -- entry is cleared.
  unfoldable pub watch_run :
      WatchdogRuntimeState
      → ℕ
      → LivenessSnapshot
      → List WatchdogTick
      → WatchdogRuntimeState × WatchdogEnd
  unfolding init_watchdog run_watchdog_loop clear_active_watchdog_entry
  watch_run state issue_number snapshot ticks =
      let (after, end) =
        run_watchdog_loop (init_watchdog state issue_number snapshot) issue_number ticks in
      (finish_watch after issue_number, end)
