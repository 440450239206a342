-- ===== src/Tests/Stalls.antt =====
-- A silent runner: stalled after the threshold, recovered once, then given up.
use Prim.Native.String
use symphony_ts.Base.{
  ℕ, nat_eq, ◌+◌, ◌≤◌, ◌<◌, ◌≡◌, ◌↔◌, refl, arith, String, true, false, List, [], ◌∷◌, All, Option,
  none, some, length, filter,
}
use symphony_ts.Base.Dict
use symphony_ts.Orchestrator.StallDetector.{
  LivenessSnapshot, WatchdogEntry, ObservableActivity, run_start, watchdog_log, check_stall,
  detected_candidates, detect_observable_activity, resolve_stall_threshold_ms,
  latest_observable_activity,
}
use symphony_ts.Orchestrator.StallDetector.Laws.{
  IsLatest, latest_observable_activity-IsLatest, check_stall-baseline, stalled_iff,
}
use symphony_ts.Orchestrator.Watchdog.{create_watchdog_runtime_state}
use symphony_ts.Orchestrator.Watchdog.Loop.{WatchdogTick, watch_run, recovered, recovery_limit}
use symphony_ts.Orchestrator.Watchdog.Laws.{IsCounted, recoveries}
use symphony_ts.Orchestrator.Watchdog.Runs.{
  is_recovered, watch_runs, watch_run-IsCounted, watch_runs-le,
}
use symphony_ts.Tests.Data.{watchdog_config}

abbrev date_parse : String → Option ℕ
date_parse text = some (String.count text)

abbrev to_iso : ℕ → String
to_iso t = ""

abbrev silent_at : ℕ → LivenessSnapshot
silent_at t = record {
  log_size_bytes = some 5;
  workspace_diff_hash = none;
  pr_head_sha = none;
  run_started_at = none;
  runner_phase = none;
  runner_heartbeat_at = none;
  runner_action_at = none;
  has_actionable_feedback = false;
  captured_at = t;
}

abbrev entry : WatchdogEntry
entry = record {
  issue_number = 3;
  last_liveness = silent_at 0;
  last_observable_activity_at = 0;
  last_observable_activity_source = none;
  recovery_count = 0;
}

stalls : (check_stall date_parse entry (silent_at 100) watchdog_config).0.stalled ≡ true
unfolding check_stall detect_observable_activity latest_observable_activity
stalls = refl

stalled_iff_example :
    ((check_stall date_parse entry (silent_at 100) watchdog_config).0.stalled ≡ true) ↔ (
      All
        (λ d. d.at < entry.last_observable_activity_at)
        (detected_candidates date_parse entry.last_liveness (silent_at 100))
      × (entry.last_observable_activity_at
            + resolve_stall_threshold_ms (silent_at 100) watchdog_config
          ≤ (silent_at 100).captured_at))
stalled_iff_example = stalled_iff date_parse entry (silent_at 100) watchdog_config

check_stall-baseline_example :
    let after = (check_stall date_parse entry (silent_at 100) watchdog_config).1 in
    (entry.last_observable_activity_at ≤ after.last_observable_activity_at)
    × (after.last_observable_activity_at ≤ (silent_at 100).captured_at)
check_stall-baseline_example =
    check_stall-baseline date_parse entry (silent_at 100) watchdog_config (omega arith)

abbrev at_start : ObservableActivity
at_start = record { at = 5; source = some run_start }

abbrev at_log : ObservableActivity
at_log = record { at = 5; source = some watchdog_log }

latest_observable_activity-IsLatest_example :
    (b : ObservableActivity) × ((latest_observable_activity (at_start ∷ at_log ∷ []) ≡ some b)
      × IsLatest b (at_start ∷ at_log ∷ []))
latest_observable_activity-IsLatest_example =
    latest_observable_activity-IsLatest at_start (at_log ∷ [])

abbrev ticks : List WatchdogTick
ticks =
    record { aborted = false; captured = some (silent_at 50); observed_at = "" }
    ∷ record { aborted = false; captured = none; observed_at = "" }
    ∷ record { aborted = false; captured = some (silent_at 500); observed_at = "" }
    ∷ []

gives_up :
    watch_runs date_parse to_iso watchdog_config create_watchdog_runtime_state 3
      ((silent_at 0, ticks) ∷ (silent_at 0, ticks) ∷ [])
    ≡ recovered ∷ recovery_limit ∷ []
unfolding watch_runs watch_run Dict.get Dict.has create_watchdog_runtime_state Dict.delete Dict.set
gives_up = refl

none_active : Dict.get create_watchdog_runtime_state.active_entries 3 ≡ none
unfolding create_watchdog_runtime_state Dict.get
none_active = refl

watch_run-IsCounted_example :
    let (after, end) =
      watch_run date_parse to_iso watchdog_config create_watchdog_runtime_state 3
        (silent_at 0)
        ticks in
    IsCounted 1 (recoveries create_watchdog_runtime_state 3) 3 after end
watch_run-IsCounted_example =
    watch_run-IsCounted date_parse to_iso watchdog_config create_watchdog_runtime_state 3
      (silent_at 0) ticks none_active

watch_runs-le_example :
    length (
      filter is_recovered (
        watch_runs date_parse to_iso watchdog_config create_watchdog_runtime_state 3
          ((silent_at 0, ticks) ∷ [])))
    ≤ 1
watch_runs-le_example =
    watch_runs-le date_parse to_iso watchdog_config 3 ((silent_at 0, ticks) ∷ [])
