-- ===== src/Orchestrator/Retry/Laws.antt =====
-- What holds of the retry queue, by operation and over every history of operations.
use symphony_ts.Base.{
  ℕ, suc, ◌+◌, ◌≡◌, refl, Bool, List, [], ◌∷◌, ◌++◌, arith, filter, not, if◌then◌else◌, nat_eq,
  Bool-cases, inl, inr, ap, nat_beq,
}
use mathlib.Core.List.{append_assoc, append-nil}
use symphony_ts.Base.Dict
use symphony_ts.Base.Dict.{Dict}
use symphony_ts.Base.Dict.Laws.{
  get-set, get-delete, IsDistinct, delete_middle, IsDistinct-middle, set-IsDistinct,
  delete-IsDistinct, Entries, Entries-set, Entries-delete,
}
use symphony_ts.Domain.Retry.{RetryState}
use symphony_ts.Orchestrator.Retry.{
  RetryRuntimeState, ScheduleRetryOptions, is_due, collect_due_loop, collect_due_retries,
  list_due_retries, schedule_retry, retry_entry, clear_retry_state, resolve_failure_retry_attempt,
  create_retry_runtime_state,
}

abbrev pub waits : ℕ → ℕ × RetryState → Bool
waits now p = not (is_due now p.1)

collect_due_loop_lem :
    (now : ℕ) (entries kept : Dict ℕ RetryState) (due : List RetryState)
    → IsDistinct (kept ++ entries)
    → collect_due_loop now entries due (kept ++ entries)
      ≡ (due ++ filter (is_due now) (Dict.values entries), kept ++ filter (waits now) entries)
unfolding collect_due_loop filter Dict.values
collect_due_loop_lem now [] kept due h = rw (append-nil due, append-nil kept)
collect_due_loop_lem now ((n, entry) ∷ entries) kept due h = elim (Bool-cases (is_due now entry)) [
  | inl ready ↦
      rw (ready, delete_middle kept entries n entry h)
        (rw
          (collect_due_loop_lem now entries kept (due ++ entry ∷ [])
            (IsDistinct-middle kept entries n entry h))
          (simp append_assoc))
  | inr later ↦
      let same : (kept ++ (n, entry) ∷ []) ++ entries ≡ kept ++ (n, entry) ∷ entries =
        append_assoc kept ((n, entry) ∷ []) entries in
      rw (later, ← same)
        (rw (collect_due_loop_lem now entries (kept ++ (n, entry) ∷ []) due (rw same h))
          (simp append_assoc))
]

-- When each issue has one entry in the queue, `collect_due_retries` returns exactly the entries
-- that `list_due_retries` lists, in the same order, leaves exactly the other entries in the queue,
-- in their order, and does not touch the failure counts.
pub collect_due_retries_partition :
    (state : RetryRuntimeState) (now : ℕ)
    → IsDistinct state.queue_by_issue_number
    → ((collect_due_retries state now).0 ≡ list_due_retries state now)
      × ((collect_due_retries state now).1.queue_by_issue_number
          ≡ filter (waits now) state.queue_by_issue_number)
      × ((collect_due_retries state now).1.next_failure_retry_attempt_by_issue_number
          ≡ state.next_failure_retry_attempt_by_issue_number)
unfolding collect_due_retries list_due_retries
collect_due_retries_partition state now h =
    let lem = collect_due_loop_lem now state.queue_by_issue_number [] [] h in
    (ap (λ p. p.0) lem, ap (λ p. p.1) lem, refl)

-- A well-formed queue: one entry for each issue, under that issue's number, due after its backoff.
pub record IsValid (state : RetryRuntimeState) : Type 0 where
  pub distinct : IsDistinct state.queue_by_issue_number
  pub keyed :
      Entries
        (λ n entry.
          (entry.issue.number ≡ n) × (entry.due_at ≡ entry.scheduled_at + entry.backoff_ms))
        state.queue_by_issue_number

pub data Op : Type 0 where
  schedule : ScheduleRetryOptions → Op
  collect : ℕ → Op
  clear : ℕ → Op

unfoldable pub apply : RetryRuntimeState → Op → RetryRuntimeState
apply state (schedule options) = (schedule_retry state options).1
apply state (collect now) = (collect_due_retries state now).1
apply state (clear n) = clear_retry_state state n

unfoldable pub run : RetryRuntimeState → List Op → RetryRuntimeState
run state [] = state
run state (op ∷ ops) = run (apply state op) ops

-- How often an issue was scheduled since it was last cleared, when that number was `count` before.
unfoldable pub failures : ℕ → ℕ → List Op → ℕ
failures n count [] = count
failures n count (schedule options ∷ ops) =
    failures n (if nat_beq options.issue.number n then suc count else count) ops
failures n count (collect now ∷ ops) = failures n count ops
failures n count (clear k ∷ ops) = failures n (if nat_beq k n then 0 else count) ops

resolve-schedule :
    (state : RetryRuntimeState) (options : ScheduleRetryOptions) (n count : ℕ)
    → resolve_failure_retry_attempt state n ≡ suc count
    → resolve_failure_retry_attempt (schedule_retry state options).1 n
      ≡ suc (if nat_beq options.issue.number n then suc count else count)
unfolding resolve_failure_retry_attempt schedule_retry
resolve-schedule state options n count h = ground (
  arith,
  get-set state.next_failure_retry_attempt_by_issue_number options.issue.number
      ((retry_entry state options).failure_retry_attempt + 1) n,
)

resolve-clear :
    (state : RetryRuntimeState) (k n count : ℕ)
    → resolve_failure_retry_attempt state n ≡ suc count
    → resolve_failure_retry_attempt (clear_retry_state state k) n
      ≡ suc (if nat_beq k n then 0 else count)
unfolding resolve_failure_retry_attempt clear_retry_state
resolve-clear state k n count h =
    ground (arith, get-delete state.next_failure_retry_attempt_by_issue_number k n)

-- Collecting due retries resets no failure count: after any history of schedules, collections and
-- clears, the attempt number of an issue is one more than the number of its schedules since it was
-- last cleared, counted on from its number at the start.
pub resolve-run :
    (state : RetryRuntimeState) (ops : List Op) (n count : ℕ)
    → resolve_failure_retry_attempt state n ≡ suc count
    → resolve_failure_retry_attempt (run state ops) n ≡ suc (failures n count ops)
unfolding run failures apply
resolve-run state [] n count h = h
resolve-run state (schedule options ∷ ops) n count h =
    resolve-run (schedule_retry state options).1 ops n
      (if nat_beq options.issue.number n then suc count else count)
      (resolve-schedule state options n count h)
resolve-run state (collect now ∷ ops) n count h =
    resolve-run (collect_due_retries state now).1 ops n count
      (unfold collect_due_retries resolve_failure_retry_attempt in h)
resolve-run state (clear k ∷ ops) n count h =
    resolve-run (clear_retry_state state k) ops n (if nat_beq k n then 0 else count)
      (resolve-clear state k n count h)

-- What a deletion keeps, the loop keeps.
collect_loop_keeps :
    (P : Dict ℕ RetryState → Type 0)
    (keep : (q : Dict ℕ RetryState) (k : ℕ) → P q → P (Dict.delete q k)) (now : ℕ)
    (entries : Dict ℕ RetryState) (due : List RetryState) (queue : Dict ℕ RetryState)
    → P queue
    → P (collect_due_loop now entries due queue).1
unfolding collect_due_loop
collect_loop_keeps P keep now [] due queue h = h
collect_loop_keeps P keep now ((n, entry) ∷ entries) due queue h =
    elim (Bool-cases (is_due now entry)) [
      | inl ready ↦
          rw (ready, collect_due_loop)
            (collect_loop_keeps P keep now entries (due ++ entry ∷ []) (Dict.delete queue n)
              (keep queue n h))
      | inr later ↦ rw (later, collect_due_loop) (collect_loop_keeps P keep now entries due queue h)
    ]

apply-IsValid : (state : RetryRuntimeState) (op : Op) → IsValid state → IsValid (apply state op)
unfolding apply schedule_retry collect_due_retries clear_retry_state
apply-IsValid state (schedule options) v = record {
  distinct = set-IsDistinct state.queue_by_issue_number options.issue.number _ v.distinct;
  keyed = Entries-set _ state.queue_by_issue_number options.issue.number _ v.keyed (refl, refl);
}
apply-IsValid state (collect now) v = record {
  distinct =
      collect_loop_keeps IsDistinct delete-IsDistinct now state.queue_by_issue_number [] _
        v.distinct;
  keyed =
      collect_loop_keeps (Entries _) (Entries-delete _) now state.queue_by_issue_number [] _
        v.keyed;
}
apply-IsValid state (clear k) v = record {
  distinct = delete-IsDistinct state.queue_by_issue_number k v.distinct;
  keyed = Entries-delete _ state.queue_by_issue_number k v.keyed;
}

run_from-IsValid :
    (state : RetryRuntimeState) (ops : List Op) → IsValid state → IsValid (run state ops)
unfolding run
run_from-IsValid state [] v = v
run_from-IsValid state (op ∷ ops) v =
    run_from-IsValid (apply state op) ops (apply-IsValid state op v)

-- After any history of operations from the empty state, the queue is well formed: each issue has at
-- most one entry, it stands under the number of its own issue, and it is due exactly its backoff
-- after it was scheduled.
pub run-IsValid : (ops : List Op) → IsValid (run create_retry_runtime_state ops)
unfolding create_retry_runtime_state
run-IsValid ops =
    run_from-IsValid create_retry_runtime_state ops (record { distinct = tt; keyed = tt })
