-- ===== src/Orchestrator/StallDetector.antt =====
-- src/orchestrator/stall-detector.ts: when a runner counts as stalled. Times are milliseconds since
-- the epoch, natural numbers; `date_parse`, the argument that stands for `Date.parse`, gives none for
-- a text that is no date. `check_stall` returns the entry that it leaves.
pub mod Laws
use symphony_ts.Base.{
  ℕ, ◌+◌, String, Bool, true, false, not, ◌&&◌, List, [], ◌∷◌, ◌++◌, Option, none, some, ltb, leb,
  min, or_else, if◌then◌else◌, ◌==◌, nat_eq, string_eq, option_eq, is_some,
}
use symphony_ts.Base.Int.{ℤ, pos, sub_ℕ, ltb_ℤ}
use symphony_ts.Domain.Workflow.{WatchdogConfig}

-- `RunnerVisibilityPhase` of src/runner/service.ts.
pub data RunnerVisibilityPhase : Type 0 where
  boot session_start turn_execution turn_finished handoff_reconciliation : RunnerVisibilityPhase
  awaiting_external shutdown : RunnerVisibilityPhase

pub data StallReason : Type 0 where
  log_stall workspace_stall pr_stall : StallReason

pub data LivenessSource : Type 0 where
  run_start runner_startup runner_heartbeat runner_action : LivenessSource
  watchdog_log workspace_diff pr_head : LivenessSource

pub record LivenessSnapshot : Type 0 where
  pub log_size_bytes : Option ℕ
  pub workspace_diff_hash : Option String
  pub pr_head_sha : Option String
  pub run_started_at : Option String
  pub runner_phase : Option RunnerVisibilityPhase
  pub runner_heartbeat_at : Option String
  pub runner_action_at : Option String
  pub has_actionable_feedback : Bool
  pub captured_at : ℕ

pub record WatchdogEntry : Type 0 where
  pub issue_number : ℕ
  pub last_liveness : LivenessSnapshot
  pub last_observable_activity_at : ℕ
  pub last_observable_activity_source : Option LivenessSource
  pub recovery_count : ℕ

pub record StallCheckResult : Type 0 where
  pub issue_number : ℕ
  pub stalled : Bool
  pub reason : Option StallReason
  pub stalled_for_ms : ℤ
  pub applied_threshold_ms : ℕ
  pub last_observable_activity_at : ℕ
  pub last_observable_activity_source : Option LivenessSource

pub record ObservableActivity : Type 0 where
  pub at : ℕ
  pub source : Option LivenessSource

unfoldable pub classify_stall_reason : LivenessSnapshot → StallReason
classify_stall_reason snapshot =
    if snapshot.has_actionable_feedback && is_some snapshot.pr_head_sha
    then pr_stall
    else if is_some snapshot.workspace_diff_hash
    then workspace_stall
    else log_stall

unfoldable pub can_recover : WatchdogEntry → WatchdogConfig → Bool
can_recover entry config = ltb entry.recovery_count config.max_recovery_attempts

unfoldable pub default_watchdog_config : WatchdogConfig
default_watchdog_config = record {
  enabled = false;
  check_interval_ms = 60000;
  stall_threshold_ms = 300000;
  execution_stall_threshold_ms = 300000;
  pr_follow_through_stall_threshold_ms = 300000;
  max_recovery_attempts = 2;
}

unfoldable pub resolve_stall_threshold_ms : LivenessSnapshot → WatchdogConfig → ℕ
resolve_stall_threshold_ms snapshot config =
    if is_some snapshot.pr_head_sha
    then config.pr_follow_through_stall_threshold_ms
    else config.execution_stall_threshold_ms

unfoldable pub is_startup_phase : Option RunnerVisibilityPhase → Bool
is_startup_phase (some boot) = true
is_startup_phase (some session_start) = true
is_startup_phase _ = false

-- The `for` loop, with the latest candidate so far.
unfoldable pub latest_loop :
    Option ObservableActivity → List ObservableActivity → Option ObservableActivity
latest_loop latest [] = latest
latest_loop none (candidate ∷ candidates) = latest_loop (some candidate) candidates
latest_loop (some latest) (candidate ∷ candidates) =
    latest_loop (some (if ltb latest.at candidate.at then candidate else latest)) candidates

unfoldable pub latest_observable_activity : List ObservableActivity → Option ObservableActivity
unfolding latest_loop
latest_observable_activity candidates = latest_loop none candidates

-- One `candidates.push` under its conditions, as the list of what is pushed.
abbrev pub pushed_if : Bool → ℕ → LivenessSource → List ObservableActivity
pushed_if true at source = record { at = at; source = some source } ∷ []
pushed_if false at source = []

abbrev pub pushed_at : Option ℕ → LivenessSource → List ObservableActivity
pushed_at none source = []
pushed_at (some at) source = record { at = at; source = some source } ∷ []

-- `current.f !== null && current.f !== previous.f`, on numbers and on texts.
abbrev pub changed_size : Option ℕ → Option ℕ → Bool
changed_size previous current = is_some current && not (current == previous)

abbrev pub changed : Option String → Option String → Bool
changed previous current = is_some current && not (current == previous)

unfoldable pub action_source : Option RunnerVisibilityPhase → LivenessSource
unfolding is_startup_phase
action_source phase = if is_startup_phase phase then runner_startup else runner_action

abbrev pub min_opt : Option ℕ → ℕ → Option ℕ
min_opt none n = none
min_opt (some m) n = some (min m n)

module _ (date_parse : String → Option ℕ) where
  unfoldable pub parse_timestamp : Option String → Option ℕ
  parse_timestamp none = none
  parse_timestamp (some value) = date_parse value

  unfoldable pub initial_candidates : LivenessSnapshot → List ObservableActivity
  unfolding parse_timestamp action_source
  initial_candidates snapshot =
      pushed_at (min_opt (parse_timestamp snapshot.run_started_at) snapshot.captured_at) run_start
      ++ (pushed_at (min_opt (parse_timestamp snapshot.runner_heartbeat_at) snapshot.captured_at)
            runner_heartbeat
          ++ pushed_at (min_opt (parse_timestamp snapshot.runner_action_at) snapshot.captured_at)
              (action_source snapshot.runner_phase))

  unfoldable pub derive_initial_observable_activity : LivenessSnapshot → ObservableActivity
  unfolding initial_candidates latest_observable_activity
  derive_initial_observable_activity snapshot =
      or_else (latest_observable_activity (initial_candidates snapshot))
        (record { at = snapshot.captured_at; source = none })

  unfoldable pub create_watchdog_entry : ℕ → LivenessSnapshot → ℕ → WatchdogEntry
  unfolding derive_initial_observable_activity
  create_watchdog_entry issue_number snapshot recovery_count =
      let initial_activity = derive_initial_observable_activity snapshot in
      record {
        issue_number = issue_number;
        last_liveness = snapshot;
        last_observable_activity_at = initial_activity.at;
        last_observable_activity_source = initial_activity.source;
        recovery_count = recovery_count;
      }

  -- A changed report whose text is no date pushes nothing.
  unfoldable pub detected_candidates : LivenessSnapshot → LivenessSnapshot → List ObservableActivity
  unfolding parse_timestamp action_source
  detected_candidates previous current =
      pushed_if (changed_size previous.log_size_bytes current.log_size_bytes) current.captured_at
        watchdog_log
      ++ (pushed_if (changed previous.workspace_diff_hash current.workspace_diff_hash)
            current.captured_at workspace_diff
          ++ (pushed_if (changed previous.pr_head_sha current.pr_head_sha) current.captured_at
                pr_head
              ++ ((if changed previous.runner_heartbeat_at current.runner_heartbeat_at
                    then pushed_at (parse_timestamp current.runner_heartbeat_at) runner_heartbeat
                    else [])
                  ++ (if changed previous.runner_action_at current.runner_action_at
                      then pushed_at (parse_timestamp current.runner_action_at)
                          (action_source current.runner_phase)
                      else []))))

  unfoldable pub detect_observable_activity :
      LivenessSnapshot → LivenessSnapshot → Option ObservableActivity
  unfolding detected_candidates latest_observable_activity
  detect_observable_activity previous current =
      latest_observable_activity (detected_candidates previous current)

-- `activity !== null && activity.at >= entry.lastObservableActivityAt`
abbrev pub is_credited : WatchdogEntry → Option ObservableActivity → Bool
is_credited entry none = false
is_credited entry (some activity) = leb entry.last_observable_activity_at activity.at

-- The branch on credited activity.
unfoldable pub credit :
    WatchdogEntry → LivenessSnapshot → ObservableActivity → ℕ → StallCheckResult × WatchdogEntry
credit entry current activity threshold =
    let credited_at = min activity.at current.captured_at in
    (
      record {
        issue_number = entry.issue_number;
        stalled = false;
        reason = none;
        stalled_for_ms = sub_ℕ current.captured_at credited_at;
        applied_threshold_ms = threshold;
        last_observable_activity_at = credited_at;
        last_observable_activity_source = activity.source;
      },
      record entry {
        last_liveness = current;
        last_observable_activity_at = credited_at;
        last_observable_activity_source = activity.source;
      },
    )

-- The rest of the function, where no activity is credited.
unfoldable pub measure : WatchdogEntry → LivenessSnapshot → ℕ → StallCheckResult × WatchdogEntry
unfolding classify_stall_reason
measure entry current threshold =
    let stalled_for_ms = sub_ℕ current.captured_at entry.last_observable_activity_at in
    let is_stalled = not (ltb_ℤ stalled_for_ms (pos threshold)) in
    (
      record {
        issue_number = entry.issue_number;
        stalled = is_stalled;
        reason = if is_stalled then some (classify_stall_reason current) else none;
        stalled_for_ms = stalled_for_ms;
        applied_threshold_ms = threshold;
        last_observable_activity_at = entry.last_observable_activity_at;
        last_observable_activity_source = entry.last_observable_activity_source;
      },
      record entry { last_liveness = current },
    )

unfoldable pub credit_or_measure :
    WatchdogEntry
    → LivenessSnapshot
    → Option ObservableActivity
    → ℕ
    → StallCheckResult × WatchdogEntry
unfolding credit measure
credit_or_measure entry current none threshold = measure entry current threshold
credit_or_measure entry current (some activity) threshold =
    if is_credited entry (some activity)
    then credit entry current activity threshold
    else measure entry current threshold

module _ (date_parse : String → Option ℕ) where
  unfoldable pub check_stall :
      WatchdogEntry → LivenessSnapshot → WatchdogConfig → StallCheckResult × WatchdogEntry
  unfolding resolve_stall_threshold_ms detect_observable_activity credit_or_measure
  check_stall entry current config =
      credit_or_measure entry current
        (detect_observable_activity date_parse entry.last_liveness current)
        (resolve_stall_threshold_ms current config)
