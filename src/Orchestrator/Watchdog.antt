-- ===== src/Orchestrator/Watchdog.antt =====
-- src/orchestrator/watchdog-state.ts: the entries, recovery counts and abort reasons.
-- `WatchdogEntry` is one object that the map and the loop share: a change of it is written back to
-- the map. The status notes and the log are left out. `date_parse` and `to_iso` stand for
-- `Date.parse` and `toISOString`.
pub mod Loop
pub mod Laws
pub mod Runs
use symphony_ts.Base.{
  ℕ, ◌+◌, ◌-◌, String, Bool, true, false, not, ◌&&◌, ◌||◌, List, [], ◌∷◌, Option, none, some,
  or_else, if◌then◌else◌, nat_eq,
}
use symphony_ts.Base.Int.{ℤ, pos, negsuc}
use symphony_ts.Base.Text.{cat, show}
use symphony_ts.Base.Dict
use symphony_ts.Base.Dict.{Dict}
use symphony_ts.Domain.Workflow.{WatchdogConfig}
use symphony_ts.Orchestrator.StallDetector.{
  StallReason, log_stall, workspace_stall, pr_stall, LivenessSource, run_start, runner_startup,
  runner_heartbeat, runner_action, watchdog_log, workspace_diff, pr_head, LivenessSnapshot,
  WatchdogEntry, StallCheckResult, create_watchdog_entry, check_stall, can_recover,
}

pub record WatchdogAbortReason : Type 0 where
  pub reason : StallReason
  pub summary : String
  pub observed_at : String
  pub recovery_exhausted : Bool
  pub last_observable_activity_at : ℕ
  pub last_observable_activity_source : Option LivenessSource

pub record WatchdogRuntimeState : Type 0 where
  pub active_entries : Dict ℕ WatchdogEntry
  pub recovery_counts : Dict ℕ ℕ
  pub abort_reasons : Dict ℕ WatchdogAbortReason

unfoldable pub create_watchdog_runtime_state : WatchdogRuntimeState
create_watchdog_runtime_state = record {
  active_entries = [];
  recovery_counts = [];
  abort_reasons = [];
}

unfoldable pub clear_active_watchdog_entry : WatchdogRuntimeState → ℕ → WatchdogRuntimeState
clear_active_watchdog_entry state issue_number = record state {
  active_entries = Dict.delete state.active_entries issue_number;
}

unfoldable pub clear_watchdog_issue_state : WatchdogRuntimeState → ℕ → WatchdogRuntimeState
clear_watchdog_issue_state state issue_number = record {
  active_entries = Dict.delete state.active_entries issue_number;
  recovery_counts = Dict.delete state.recovery_counts issue_number;
  abort_reasons = Dict.delete state.abort_reasons issue_number;
}

unfoldable pub note_watchdog_abort_reason :
    WatchdogRuntimeState → ℕ → WatchdogAbortReason → WatchdogRuntimeState
note_watchdog_abort_reason state issue_number reason = record state {
  abort_reasons = Dict.set state.abort_reasons issue_number reason;
}

unfoldable pub clear_watchdog_abort_reason : WatchdogRuntimeState → ℕ → WatchdogRuntimeState
clear_watchdog_abort_reason state issue_number = record state {
  abort_reasons = Dict.delete state.abort_reasons issue_number;
}

unfoldable pub read_watchdog_abort_reason : WatchdogRuntimeState → ℕ → Option WatchdogAbortReason
read_watchdog_abort_reason state issue_number = Dict.get state.abort_reasons issue_number

-- The write-back of a changed entry, to the map that holds it.
unfoldable pub share_entry : WatchdogRuntimeState → WatchdogEntry → WatchdogRuntimeState
share_entry state entry = record state {
  active_entries =
      if Dict.has state.active_entries entry.issue_number
      then Dict.set state.active_entries entry.issue_number entry
      else state.active_entries;
}

unfoldable pub record_watchdog_recovery :
    WatchdogRuntimeState → WatchdogEntry → ℕ × (WatchdogRuntimeState × WatchdogEntry)
unfolding share_entry
record_watchdog_recovery state entry =
    let count = entry.recovery_count + 1 in
    let counted = record entry { recovery_count = count } in
    (
      count,
      (
        record (share_entry state counted) {
          recovery_counts = Dict.set state.recovery_counts entry.issue_number count;
        },
        counted,
      ),
    )

module _ (date_parse : String → Option ℕ) where
  unfoldable pub init_absent :
      WatchdogRuntimeState → ℕ → LivenessSnapshot → WatchdogEntry × WatchdogRuntimeState
  unfolding create_watchdog_entry
  init_absent state issue_number snapshot =
      let entry =
        create_watchdog_entry date_parse issue_number snapshot
          (or_else (Dict.get state.recovery_counts issue_number) 0) in
      (entry, record state { active_entries = Dict.set state.active_entries issue_number entry })

  unfoldable pub init_found :
      WatchdogRuntimeState
      → ℕ
      → LivenessSnapshot
      → Option WatchdogEntry
      → WatchdogEntry × WatchdogRuntimeState
  unfolding init_absent
  init_found state issue_number snapshot (some existing) = (existing, state)
  init_found state issue_number snapshot none = init_absent state issue_number snapshot

  unfoldable pub init_watchdog_entry :
      WatchdogRuntimeState → ℕ → LivenessSnapshot → WatchdogEntry × WatchdogRuntimeState
  unfolding init_found
  init_watchdog_entry state issue_number snapshot =
      init_found state issue_number snapshot (Dict.get state.active_entries issue_number)
