-- ===== src/Orchestrator/Watchdog/Runs.antt =====
-- How many times the watchdog recovers an issue, and what it leaves behind at the end of a run.
use symphony_ts.Base.{
  ℕ, ◌+◌, ◌≤◌, ◌≡◌, inl, inr, refl, String, Bool, true, false, List, [], ◌∷◌, Option, none, arith,
  Bool-cases, if◌then◌else◌, subst, length, filter, nat_eq,
}
use symphony_ts.Base.Dict
use symphony_ts.Base.Dict.{Dict}
use symphony_ts.Base.Dict.Laws.{get-set_same, get-delete}
use symphony_ts.Domain.Workflow.{WatchdogConfig}
use symphony_ts.Orchestrator.StallDetector.{LivenessSnapshot, WatchdogEntry, create_watchdog_entry}
use symphony_ts.Orchestrator.Watchdog.{
  WatchdogRuntimeState, create_watchdog_runtime_state, read_watchdog_abort_reason,
  clear_watchdog_abort_reason, clear_active_watchdog_entry, init_watchdog_entry,
}
use symphony_ts.Orchestrator.Watchdog.Loop.{
  WatchdogEnd, still_watching, run_stopped, recovered, recovery_limit, WatchdogTick,
  run_watchdog_loop, init_watchdog, watch_run,
}
use symphony_ts.Orchestrator.Watchdog.Laws.{
  recoveries, Holds, IsCounted, LoopIsCounted, loop-IsCounted,
}

abbrev pub is_recovered : WatchdogEnd → Bool
is_recovered recovered = true
is_recovered _ = false

module _ (date_parse : String → Option ℕ) (to_iso : ℕ → String) (config : WatchdogConfig) where
  init-Holds :
      (s : WatchdogRuntimeState) (n : ℕ) (snapshot : LivenessSnapshot)
      → config.enabled ≡ true
      → Dict.get s.active_entries n ≡ none
      → let after = init_watchdog date_parse to_iso config s n snapshot in
        ((entry : WatchdogEntry) × Holds after n entry) × (recoveries after n ≡ recoveries s n)
  unfolding init_watchdog Dict.has init_watchdog_entry clear_watchdog_abort_reason
      create_watchdog_entry
  init-Holds s n snapshot on absent =
      rw (on, absent)
        (
          (_, record { held = get-set_same s.active_entries n _; numbered = refl; counted = refl }),
          refl,
        )

  watched-IsCounted :
      (s : WatchdogRuntimeState) (n : ℕ) (entry : WatchdogEntry) (ticks : List WatchdogTick)
      → config.enabled ≡ true
      → Holds s n entry
      → let (after, end) = run_watchdog_loop date_parse to_iso config s n ticks in
        IsCounted config.max_recovery_attempts (recoveries s n) n after end
  unfolding run_watchdog_loop LoopIsCounted
  watched-IsCounted s n entry ticks on h =
      rw (on, h.held)
        (loop-IsCounted date_parse to_iso (record config { enabled = true }) s n entry ticks h)

  clear-IsCounted :
      (limit count n : ℕ) (s : WatchdogRuntimeState) (end : WatchdogEnd)
      → IsCounted limit count n s end
      → IsCounted limit count n (clear_active_watchdog_entry s n) end
  unfolding clear_active_watchdog_entry read_watchdog_abort_reason
  clear-IsCounted limit count n s still_watching h = h
  clear-IsCounted limit count n s run_stopped h = h
  clear-IsCounted limit count n s recovered h = h
  clear-IsCounted limit count n s recovery_limit h = h

  watch_on-IsCounted :
      (s : WatchdogRuntimeState) (n : ℕ) (snapshot : LivenessSnapshot) (ticks : List WatchdogTick)
      → config.enabled ≡ true
      → Dict.get s.active_entries n ≡ none
      → let (after, end) = watch_run date_parse to_iso config s n snapshot ticks in
        IsCounted config.max_recovery_attempts (recoveries s n) n after end
  unfolding watch_run
  watch_on-IsCounted s n snapshot ticks on absent =
      let ((entry, holds), same) = init-Holds s n snapshot on absent in
      let started = init_watchdog date_parse to_iso config s n snapshot in
      let (after, end) = run_watchdog_loop date_parse to_iso config started n ticks in
      clear-IsCounted config.max_recovery_attempts (recoveries s n) n after end (
        subst (λ c. IsCounted config.max_recovery_attempts c n after end) same
          (watched-IsCounted started n entry ticks on holds))

  watch_off :
      (s : WatchdogRuntimeState) (n : ℕ) (snapshot : LivenessSnapshot) (ticks : List WatchdogTick)
      → config.enabled ≡ false
      → watch_run date_parse to_iso config s n snapshot ticks
        ≡ (clear_active_watchdog_entry s n, run_stopped)
  unfolding watch_run init_watchdog run_watchdog_loop
  watch_off s n snapshot ticks off = rw off refl

  -- In a run of an issue that has no entry yet, a recovery happens only while the issue was recovered
  -- fewer times than the limit, counts one more and leaves an abort reason that is not exhausted; the
  -- limit is reported only when it is reached, with an exhausted abort reason and the count kept; any
  -- other end of the run keeps the count.
  pub watch_run-IsCounted :
      (s : WatchdogRuntimeState) (n : ℕ) (snapshot : LivenessSnapshot) (ticks : List WatchdogTick)
      → Dict.get s.active_entries n ≡ none
      → let (after, end) = watch_run date_parse to_iso config s n snapshot ticks in
        IsCounted config.max_recovery_attempts (recoveries s n) n after end
  watch_run-IsCounted s n snapshot ticks absent = elim (Bool-cases config.enabled) [
    | inl on ↦ watch_on-IsCounted s n snapshot ticks on absent
    | inr off ↦ rw (watch_off s n snapshot ticks off) (unfold clear_active_watchdog_entry in refl)
  ]

  run-absent :
      (s : WatchdogRuntimeState) (n : ℕ) (snapshot : LivenessSnapshot) (ticks : List WatchdogTick)
      → Dict.get (watch_run date_parse to_iso config s n snapshot ticks).0.active_entries n ≡ none
  unfolding watch_run clear_active_watchdog_entry
  run-absent s n snapshot ticks = ground (
    arith,
    get-delete
        (run_watchdog_loop date_parse to_iso config
          (init_watchdog date_parse to_iso config s n snapshot) n ticks).0.active_entries
        n n,
  )

  -- One run of an issue after the other, with the end of each.
  unfoldable pub watch_runs :
      WatchdogRuntimeState → ℕ → List (LivenessSnapshot × List WatchdogTick) → List WatchdogEnd
  watch_runs s n [] = []
  watch_runs s n ((snapshot, ticks) ∷ runs) =
      let (after, end) = watch_run date_parse to_iso config s n snapshot ticks in
      end ∷ watch_runs after n runs

  counted-le :
      (count n : ℕ) (after : WatchdogRuntimeState) (end : WatchdogEnd)
      → count ≤ config.max_recovery_attempts
      → IsCounted config.max_recovery_attempts count n after end
      → (recoveries after n ≤ config.max_recovery_attempts)
        × (recoveries after n ≡ count + (if is_recovered end then 1 else 0))
  counted-le count n after still_watching le h = ground arith
  counted-le count n after run_stopped le h = ground arith
  counted-le count n after recovered le h = ground arith
  counted-le count n after recovery_limit le h = ground arith

  recoveries-le :
      (s : WatchdogRuntimeState) (n : ℕ) (runs : List (LivenessSnapshot × List WatchdogTick))
      → Dict.get s.active_entries n ≡ none
      → recoveries s n ≤ config.max_recovery_attempts
      → recoveries s n + length (filter is_recovered (watch_runs s n runs))
        ≤ config.max_recovery_attempts
  unfolding watch_runs filter
  recoveries-le s n [] absent le = omega arith
  recoveries-le s n ((snapshot, ticks) ∷ runs) absent le =
      let (after, end) = watch_run date_parse to_iso config s n snapshot ticks in
      let (bound, same) =
        counted-le (recoveries s n) n after end le
          (watch_run-IsCounted s n snapshot ticks absent) in
      let rest = recoveries-le after n runs (run-absent s n snapshot ticks) bound in ground arith

  -- Over any number of runs of an issue from the empty state, with no clearing of the issue's state
  -- between them, the watchdog recovers the issue at most as often as its limit says, whatever the
  -- probes report.
  pub watch_runs-le :
      (n : ℕ) (runs : List (LivenessSnapshot × List WatchdogTick))
      → length (filter is_recovered (watch_runs create_watchdog_runtime_state n runs))
        ≤ config.max_recovery_attempts
  unfolding create_watchdog_runtime_state Dict.get
  watch_runs-le n runs =
      let total = recoveries-le create_watchdog_runtime_state n runs refl (omega arith) in
      omega arith
