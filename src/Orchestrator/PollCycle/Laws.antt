-- ===== src/Orchestrator/PollCycle/Laws.antt =====
-- One poll: how many issues it starts, and which.
use symphony_ts.Base.{
  ℕ, ◌-◌, ◌≤◌, ◌≡◌, refl, ◌⊎◌, Bool, true, false, List, [], ◌++◌, Option, none, some, arith, leb,
  length, if◌then◌else◌, nat_eq, All, Bool-cases, inl, inr, All-map, max, ◌≢◌, is_some, ◌&&◌, sym,
}
use mathlib.Core.List.{append-nil}
use symphony_ts.Base.Dict.{Dict}
use symphony_ts.Base.Sets.{contains, IsUnique}
use symphony_ts.Domain.Issue.{RuntimeIssue}
use symphony_ts.Domain.Retry.{RetryState, DispatchPressureStateSnapshot}
use symphony_ts.Orchestrator.Retry.{RetryRuntimeState, has_queued_retry, list_due_retries}
use symphony_ts.Orchestrator.FollowUp.{FollowUpRuntimeState, resolve_run_sequence}
use symphony_ts.Orchestrator.LocalDispatch.{
  LocalDispatchRuntimeState, count_reserved_local_dispatches,
}
use symphony_ts.Orchestrator.DispatchQueue.{
  QueueEntry, running, entry_numbers, retry_numbers, merge_dispatch_queue, order_ready_candidates,
}
use symphony_ts.Orchestrator.DispatchQueue.Laws.{
  IsDispatchable, merge-IsDispatchable, order-IsDispatchable, merge_running,
}
use symphony_ts.Orchestrator.PollCycle.{
  FactoryHaltState, clear, halted, degraded, due_retries, poll_queue, dispatch_queue, may_dispatch,
  is_clear, available_slots, release_ended,
}
use symphony_ts.Orchestrator.PollCycle.Progress.{
  dispatch_loop-Progress, Progress-count, Progress-served, release_ended-IsUnique,
  length-release_ended,
}

-- A poll, during whose waits the tasks of any issues end, starts no issue that is still reserved and
-- none twice: the reservations after it are those left and the numbers of the started entries, in
-- that order, all different. They are at most `max_concurrent_runs` in number, or as many as when
-- the slots were counted if these were more. And it starts as many tasks as there were slots free
-- when it counted them, or else leaves every issue of the queue reserved.
pub dispatch_queue_lem :
    (task : QueueEntry → ℕ) (max_concurrent_runs : ℕ) (queue : List QueueEntry) (ended : List ℕ)
    (state : LocalDispatchRuntimeState)
    → IsUnique state.reserved_issue_numbers
    → let (started, after) = dispatch_queue task max_concurrent_runs queue ended state in
      (after.reserved_issue_numbers
        ≡ (release_ended state ended).reserved_issue_numbers ++ entry_numbers started)
      × IsUnique after.reserved_issue_numbers
      × (count_reserved_local_dispatches after
          ≤ max max_concurrent_runs (count_reserved_local_dispatches state))
      × ((length started ≡ max_concurrent_runs - count_reserved_local_dispatches state)
          ⊎ All (λ entry. contains after.reserved_issue_numbers entry.issue.number ≡ true) queue)
unfolding dispatch_queue available_slots count_reserved_local_dispatches
dispatch_queue_lem task max_runs queue ended state u =
    let left = release_ended state ended in
    let fewer = length-release_ended state ended in
    let unique = release_ended-IsUnique state ended u in
    elim (Bool-cases (leb (max_runs - length state.reserved_issue_numbers) 0)) [
      | inl full ↦ rw full (sym (append-nil _), unique, omega arith, inl (ground arith))
      | inr room ↦
          let p =
            dispatch_loop-Progress task left.reserved_issue_numbers
              (max_runs - length state.reserved_issue_numbers) queue [] left (sym (append-nil _))
              unique (omega arith) in
          let count = Progress-count task p in
          rw room (p.added, p.unique, ground (arith, count, p.within), Progress-served task p)
    ]

closed :
    (pressure : Option DispatchPressureStateSnapshot) (halt : FactoryHaltState)
    → (is_some pressure ≡ true) ⊎ (halt ≢ clear)
    → may_dispatch pressure halt ≡ false
closed (some p) halt h = refl
closed none clear h = ground arith
closed none halted h = refl
closed none degraded h = refl

-- For the due retries `due` that are merged, or none, and a ready queue ordered by them, or none.
merged-IsDispatchable :
    (queued : ℕ → Bool) (resolve : ℕ → Dict ℕ ℕ → ℕ) (due : List RetryState)
    (ready going : List RuntimeIssue) (is_open no_halt : Bool)
    → All (λ i. IsDispatchable queued resolve due i.number) ready
    → is_open ≡ is_open && no_halt
    → All
        (λ e. IsDispatchable queued resolve due e.issue.number)
        (merge_dispatch_queue queued resolve
          (if is_open then ready else [])
          going
          (if no_halt then due else []))
merged-IsDispatchable queued resolve due ready going true true h e =
    merge-IsDispatchable queued resolve ready going due h
merged-IsDispatchable queued resolve due ready going false true h e =
    merge-IsDispatchable queued resolve [] going due tt
merged-IsDispatchable queued resolve due ready going true false h e = cc
merged-IsDispatchable queued resolve due ready going false false h e =
    All-map (λ (entry : QueueEntry). IsDispatchable queued resolve [] entry.issue.number)
      (λ entry. IsDispatchable queued resolve due entry.issue.number)
      (λ entry d. elim d [ inl none_due ↦ unfold contains in cc none_due | inr idle ↦ inr idle ])
      (merge_dispatch_queue queued resolve [] going [])
      (merge-IsDispatchable queued resolve [] going [] tt)

-- Only what may be dispatched now is in the queue of a poll, whatever the pressure, the halt state
-- and the candidates: an issue with a retry that the poll found due, or with no retry queued.
pub poll_queue-IsDispatchable :
    (retries : RetryRuntimeState) (follow_up : FollowUpRuntimeState)
    (pressure : Option DispatchPressureStateSnapshot) (halt : FactoryHaltState) (now : ℕ)
    (ready_candidates running_candidates : List RuntimeIssue)
    → let (queue, left) =
        poll_queue retries follow_up pressure halt now ready_candidates running_candidates in
      All
        (λ entry.
          (contains (retry_numbers (due_retries retries pressure halt now).0) entry.issue.number
            ≡ true)
          ⊎ (has_queued_retry left entry.issue.number ≡ false))
        queue
unfolding poll_queue
poll_queue-IsDispatchable retries follow_up pressure halt now ready_candidates running_candidates =
    let due : List RetryState = (due_retries retries pressure halt now).0 in
    let queued : ℕ → Bool = has_queued_retry (due_retries retries pressure halt now).1 in
    merged-IsDispatchable queued (resolve_run_sequence follow_up) due
      (order_ready_candidates ready_candidates running_candidates due queued) running_candidates
      (may_dispatch pressure halt) (is_clear halt)
      (order-IsDispatchable queued (resolve_run_sequence follow_up) ready_candidates
        running_candidates due)
      (ground arith)

-- While dispatch pressure is active or the factory is not clear, a poll queues running issues only.
pub poll_queue_paused :
    (retries : RetryRuntimeState) (follow_up : FollowUpRuntimeState)
    (pressure : Option DispatchPressureStateSnapshot) (halt : FactoryHaltState) (now : ℕ)
    (ready_candidates running_candidates : List RuntimeIssue)
    → (is_some pressure ≡ true) ⊎ (halt ≢ clear)
    → All
        (λ entry. entry.source ≡ running)
        (poll_queue retries follow_up pressure halt now ready_candidates running_candidates).0
unfolding poll_queue
poll_queue_paused retries follow_up pressure halt now ready_candidates running_candidates paused =
    rw (closed pressure halt paused) (
      merge_running (has_queued_retry retries) (resolve_run_sequence follow_up) running_candidates
        (if is_clear halt then list_due_retries retries now else []))
