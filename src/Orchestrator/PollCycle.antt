-- ===== src/Orchestrator/PollCycle.antt =====
-- src/orchestrator/poll-cycle-coordinator.ts, with `#startDispatchTask` of
-- src/orchestrator/service.ts: which issues a poll dispatches. The candidates come from the tracker,
-- the pressure and the halt state are those of the moment. A started task is identified by its
-- queue entry; it runs on after the loop and releases its issue at its end, in a later turn of the
-- event loop. So no release falls within the loop, but releases fall between the count of the free
-- slots and the loop, where the poll waits; nothing but the loop reserves an issue.
pub mod Laws
pub mod Progress
use symphony_ts.Base.{
  ℕ, suc, ◌-◌, Bool, true, false, ◌&&◌, List, [], ◌∷◌, ◌++◌, Option, none, some, leb, ltb, not,
  if◌then◌else◌, is_some, length,
}
use symphony_ts.Base.Dict.{Dict}
use symphony_ts.Domain.Issue.{RuntimeIssue}
use symphony_ts.Domain.Retry.{RetryState, DispatchPressureStateSnapshot}
use symphony_ts.Orchestrator.Retry.{
  RetryRuntimeState, collect_due_retries, list_due_retries, has_queued_retry,
}
use symphony_ts.Orchestrator.FollowUp.{FollowUpRuntimeState, resolve_run_sequence}
use symphony_ts.Orchestrator.LocalDispatch.{
  LocalDispatchRuntimeState, count_reserved_local_dispatches, has_reserved_local_dispatch,
  reserve_local_dispatch, note_background_dispatch_task, release_local_dispatch,
}
use symphony_ts.Orchestrator.DispatchQueue.{
  QueueEntry, order_ready_candidates, merge_dispatch_queue,
}

pub data FactoryHaltState : Type 0 where
  clear halted degraded : FactoryHaltState

abbrev pub is_clear : FactoryHaltState → Bool
is_clear clear = true
is_clear _ = false

-- `dispatchPressure === null && factoryHalt.state === "clear"`
abbrev pub may_dispatch : Option DispatchPressureStateSnapshot → FactoryHaltState → Bool
may_dispatch pressure halt = not (is_some pressure) && is_clear halt

unfoldable pub due_retries :
    RetryRuntimeState
    → Option DispatchPressureStateSnapshot
    → FactoryHaltState
    → ℕ
    → List RetryState × RetryRuntimeState
due_retries retries pressure halt now =
    if may_dispatch pressure halt
    then collect_due_retries retries now
    else (list_due_retries retries now, retries)

-- The queue that one poll builds, with the retries that it leaves queued.
unfoldable pub poll_queue :
    RetryRuntimeState
    → FollowUpRuntimeState
    → Option DispatchPressureStateSnapshot
    → FactoryHaltState
    → ℕ
    → List RuntimeIssue
    → List RuntimeIssue
    → List QueueEntry × RetryRuntimeState
unfolding due_retries
poll_queue retries follow_up pressure halt now ready_candidates running_candidates =
    let (due, left) = due_retries retries pressure halt now in
    let ordered_ready_queue =
      order_ready_candidates ready_candidates running_candidates due (has_queued_retry left) in
    (
      merge_dispatch_queue (has_queued_retry left) (resolve_run_sequence follow_up)
          (if may_dispatch pressure halt then ordered_ready_queue else []) running_candidates
          (if is_clear halt then due else []),
      left,
    )

-- `#startDispatchTask`: no task where the issue is reserved already.
unfoldable pub start_dispatch_task :
    (QueueEntry → ℕ) → QueueEntry → LocalDispatchRuntimeState → Bool × LocalDispatchRuntimeState
start_dispatch_task task entry state =
    let (reserved, state') = reserve_local_dispatch state entry.issue.number in
    if reserved
    then (true, note_background_dispatch_task state' entry.issue.number (task entry))
    else (false, state')

-- The dispatch loop: the entries started, and the state behind them.
unfoldable pub dispatch_loop :
    (QueueEntry → ℕ)
    → ℕ
    → List QueueEntry
    → List QueueEntry
    → LocalDispatchRuntimeState
    → List QueueEntry × LocalDispatchRuntimeState
unfolding start_dispatch_task
dispatch_loop task slots [] started state = (started, state)
dispatch_loop task slots (entry ∷ queue) started state =
    let (fresh, state') = start_dispatch_task task entry state in
    let skipped = dispatch_loop task slots queue started state in
    let went_on =
      dispatch_loop task slots queue (if fresh then started ++ entry ∷ [] else started) state' in
    if leb slots (length started)
    then (started, state)
    else if has_reserved_local_dispatch state entry.issue.number
    then skipped
    else went_on

-- `availableSlots`, which is only compared with the count of started tasks: no task is started where
-- it is zero or negative.
unfoldable pub available_slots : ℕ → LocalDispatchRuntimeState → ℕ
available_slots max_concurrent_runs state =
    max_concurrent_runs - count_reserved_local_dispatches state

-- The tasks that end while the poll persists its status and reconciles the terminal reporting.
unfoldable pub release_ended : LocalDispatchRuntimeState → List ℕ → LocalDispatchRuntimeState
release_ended state [] = state
release_ended state (issue_number ∷ ended) =
    release_ended (release_local_dispatch state issue_number) ended

-- The end of `runPollCycle`, from the count of the slots.
unfoldable pub dispatch_queue :
    (QueueEntry → ℕ)
    → ℕ
    → List QueueEntry
    → List ℕ
    → LocalDispatchRuntimeState
    → List QueueEntry × LocalDispatchRuntimeState
unfolding dispatch_loop available_slots release_ended
dispatch_queue task max_concurrent_runs queue ended state =
    let slots = available_slots max_concurrent_runs state in
    let state' = release_ended state ended in
    if leb slots 0 then ([], state') else dispatch_loop task slots queue [] state'
