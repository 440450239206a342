-- ===== src/Orchestrator/Watchdog/Laws.antt =====
-- What a turn of the watchdog's loop, and the loop, do to the recovery count.
use symphony_ts.Base.{
  ℕ, ◌+◌, ◌≤◌, ◌<◌, ◌≡◌, inl, inr, refl, ◌∙◌, String, Bool, true, false, List, [], ◌∷◌, Option,
  none, some, arith, ltb, or_else, Bool-cases, if◌then◌else◌, if-both, subst, nat_eq, suc,
}
use symphony_ts.Base.Dict
use symphony_ts.Base.Dict.{Dict}
use symphony_ts.Base.Dict.Laws.{get-set, get-set_same}
use symphony_ts.Domain.Workflow.{WatchdogConfig}
use symphony_ts.Orchestrator.StallDetector.{
  StallReason, LivenessSnapshot, WatchdogEntry, StallCheckResult, check_stall, can_recover, credit,
  measure, credit_or_measure, detect_observable_activity, resolve_stall_threshold_ms,
  ObservableActivity,
}
use symphony_ts.Orchestrator.Watchdog.{
  WatchdogAbortReason, WatchdogRuntimeState, share_entry, note_watchdog_abort_reason,
  read_watchdog_abort_reason,
}
use symphony_ts.Orchestrator.Watchdog.Loop.{
  WatchdogEnd, recovered, recovery_limit, WatchdogTick, goes_on, ends, handle_stall, abort_reason,
  after_check, after_capture, watchdog_turn, watchdog_loop, WatchdogTurn, follow,
}

abbrev pub recoveries : WatchdogRuntimeState → ℕ → ℕ
recoveries state n = or_else (Dict.get state.recovery_counts n) 0

-- The map holds the entry of the issue, with the issue's count.
pub record Holds (state : WatchdogRuntimeState) (n : ℕ) (entry : WatchdogEntry) : Type 0 where
  pub held : Dict.get state.active_entries n ≡ some entry
  pub numbered : entry.issue_number ≡ n
  pub counted : entry.recovery_count ≡ recoveries state n

abbrev pub HasAbort : WatchdogRuntimeState → ℕ → Bool → Type 0
unfolding read_watchdog_abort_reason
HasAbort state n exhausted =
    (r : WatchdogAbortReason) × ((read_watchdog_abort_reason state n ≡ some r)
      × (r.recovery_exhausted ≡ exhausted))

-- What a run may do to the count of its issue, by how the watchdog ends: a recovery is below the
-- limit and counts one more, the limit is reached and nothing is counted, and in both cases the
-- abort reason says which; otherwise the count stays.
abbrev pub IsCounted : ℕ → ℕ → ℕ → WatchdogRuntimeState → WatchdogEnd → Type 0
IsCounted limit count n after recovered =
    (count < limit) × ((recoveries after n ≡ suc count) × HasAbort after n false)
IsCounted limit count n after recovery_limit =
    (limit ≤ count) × ((recoveries after n ≡ count) × HasAbort after n true)
IsCounted limit count n after _ = recoveries after n ≡ count

share-get :
    (m : Dict ℕ WatchdogEntry) (i n : ℕ) (v w : WatchdogEntry)
    → i ≡ n
    → Dict.get m n ≡ some w
    → Dict.get (if Dict.has m i then Dict.set m i v else m) n ≡ some v
unfolding Dict.has
share-get m i n v w same held = rw (same, held) (get-set_same m n v)

HasAbort-note :
    (s : WatchdogRuntimeState) (n : ℕ) (r : WatchdogAbortReason)
    → HasAbort (note_watchdog_abort_reason s n r) n r.recovery_exhausted
unfolding note_watchdog_abort_reason read_watchdog_abort_reason
HasAbort-note s n r = (r, (get-set_same s.abort_reasons n r, refl))

module _ (date_parse : String → Option ℕ) (to_iso : ℕ → String) (config : WatchdogConfig) where
  pub handle_stall-IsCounted :
      (s : WatchdogRuntimeState) (n : ℕ) (entry : WatchdogEntry) (reason : StallReason)
      (result : StallCheckResult) (at : String)
      → Holds s n entry
      → let (after, end) = handle_stall date_parse to_iso config s n entry reason result at in
        IsCounted config.max_recovery_attempts (recoveries s n) n after end
  unfolding handle_stall can_recover abort_reason
  handle_stall-IsCounted s n entry reason result at h =
      elim (Bool-cases (ltb entry.recovery_count config.max_recovery_attempts)) [
        | inl below ↦
            let counted =
              get-set s.recovery_counts entry.issue_number (entry.recovery_count + 1) n in
            rw (below, h.held) (ground arith, (ground (arith, counted), HasAbort-note _ n _))
        | inr over ↦ rw over (ground arith, (refl, HasAbort-note s n _))
      ]

  check-keeps :
      (entry : WatchdogEntry) (snapshot : LivenessSnapshot) (activity : Option ObservableActivity)
      (threshold : ℕ)
      → let after = (credit_or_measure entry snapshot activity threshold).1 in
        (after.issue_number ≡ entry.issue_number) × (after.recovery_count ≡ entry.recovery_count)
  unfolding credit_or_measure credit measure
  check-keeps entry snapshot none threshold = (refl, refl)
  check-keeps entry snapshot (some a) threshold = ground arith

  share-Holds :
      (s : WatchdogRuntimeState) (n : ℕ) (entry checked : WatchdogEntry)
      → Holds s n entry
      → checked.issue_number ≡ entry.issue_number
      → checked.recovery_count ≡ entry.recovery_count
      → Holds (share_entry s checked) n checked
  unfolding share_entry Dict.has
  share-Holds s n entry checked h same_number same_count = record {
    held =
        share-get s.active_entries checked.issue_number n checked entry (same_number ∙ h.numbered)
          h.held;
    numbered = same_number ∙ h.numbered;
    counted = same_count ∙ h.counted;
  }

  -- What a turn leaves: the entry still held and the count unchanged, or an end that is counted.
  abbrev TurnKeeps : WatchdogRuntimeState → ℕ → WatchdogTurn → Type 0
  TurnKeeps s n (goes_on after entry) = Holds after n entry × (recoveries after n ≡ recoveries s n)
  TurnKeeps s n (ends after end) =
      IsCounted config.max_recovery_attempts (recoveries s n) n after end

  after_check-keeps :
      (s : WatchdogRuntimeState) (n : ℕ) (entry : WatchdogEntry) (result : StallCheckResult)
      (reason : Option StallReason) (at : String)
      → Holds s n entry
      → TurnKeeps s n (after_check date_parse to_iso config s n entry result reason at)
  unfolding after_check
  after_check-keeps s n entry result none at h = (h, refl)
  after_check-keeps s n entry result (some reason) at h =
      if-both (TurnKeeps s n) result.stalled (handle_stall-IsCounted s n entry reason result at h)
        (h, refl)

  after_capture-keeps :
      (s : WatchdogRuntimeState) (n : ℕ) (entry : WatchdogEntry) (c : Option LivenessSnapshot)
      (at : String)
      → Holds s n entry
      → TurnKeeps s n (after_capture date_parse to_iso config s n entry c at)
  unfolding after_capture check_stall share_entry
  after_capture-keeps s n entry none at h = (h, refl)
  after_capture-keeps s n entry (some snapshot) at h =
      let (numbered, counted) =
        check-keeps entry snapshot
          (detect_observable_activity date_parse entry.last_liveness snapshot)
          (resolve_stall_threshold_ms snapshot config) in
      let (result, checked) = check_stall date_parse entry snapshot config in
      after_check-keeps (share_entry s checked) n checked result result.reason at
        (share-Holds s n entry checked h numbered counted)

  turn-keeps :
      (s : WatchdogRuntimeState) (n : ℕ) (entry : WatchdogEntry) (tick : WatchdogTick)
      → Holds s n entry
      → TurnKeeps s n (watchdog_turn date_parse to_iso config s n entry tick)
  unfolding watchdog_turn
  turn-keeps s n entry tick h =
      if-both (TurnKeeps s n) tick.aborted refl
        (after_capture-keeps s n entry tick.captured tick.observed_at h)

  unfoldable pub LoopIsCounted :
      WatchdogRuntimeState → ℕ → WatchdogEntry → List WatchdogTick → Type 0
  unfolding watchdog_loop
  LoopIsCounted s n entry ticks =
      let (after, end) = watchdog_loop date_parse to_iso config s n entry ticks in
      IsCounted config.max_recovery_attempts (recoveries s n) n after end

  pub loop-IsCounted :
      (s : WatchdogRuntimeState) (n : ℕ) (entry : WatchdogEntry) (ticks : List WatchdogTick)
      → Holds s n entry
      → LoopIsCounted s n entry ticks
  unfolding watchdog_loop LoopIsCounted
  loop-IsCounted s n entry [] h = refl
  loop-IsCounted s n entry (tick ∷ ticks) h =
      go (watchdog_turn date_parse to_iso config s n entry tick) (turn-keeps s n entry tick h)
        (λ after changed holds. loop-IsCounted after n changed ticks holds)
    where
      go :
          (turn : WatchdogTurn)
          → TurnKeeps s n turn
          → ((after : WatchdogRuntimeState) (changed : WatchdogEntry)
              → Holds after n changed
              → LoopIsCounted after n changed ticks)
          → let (after, end) =
              follow turn
                (λ after changed. watchdog_loop date_parse to_iso config after n changed ticks) in
            IsCounted config.max_recovery_attempts (recoveries s n) n after end
      go (goes_on after changed) (holds, same) rest =
          let (final, end) = watchdog_loop date_parse to_iso config after n changed ticks in
          subst (λ c. IsCounted config.max_recovery_attempts c n final end) same
            (rest after changed holds)
      go (ends after end) k rest = k
