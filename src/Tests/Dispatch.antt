-- ===== src/Tests/Dispatch.antt =====
-- A poll over three candidates with two slots.
use symphony_ts.Base.{
  ℕ, ◌≡◌, ◌≤◌, ◌⊎◌, ◌≢◌, inr, refl, Bool, true, false, List, [], ◌∷◌, ◌++◌, All, none, filter, max,
  nat_eq, length, ◌-◌,
}
use symphony_ts.Base.Dict.{Dict}
use symphony_ts.Base.Sets.{contains, IsUnique}
use symphony_ts.Base.Sort.{IsPairwise, sort_by}
use mathlib.Core.List.{Perm}
use symphony_ts.Domain.Issue.{RuntimeIssue, compare_runtime_issues_by_queue_priority}
use symphony_ts.Orchestrator.Retry.{RetryRuntimeState, has_queued_retry}
use symphony_ts.Orchestrator.FollowUp.{create_follow_up_runtime_state, resolve_run_sequence}
use symphony_ts.Orchestrator.LocalDispatch.{
  LocalDispatchRuntimeState, count_reserved_local_dispatches, has_reserved_local_dispatch,
  reserve_local_dispatch,
}
use symphony_ts.Orchestrator.DispatchQueue.{
  QueueEntry, ready, running, order_ready_candidates, merge_dispatch_queue, retry_numbers,
  entry_numbers,
}
use symphony_ts.Orchestrator.DispatchQueue.Priority.{
  may_start, IssuePrecedes, order_ready_candidates_sorted,
}
use symphony_ts.Orchestrator.DispatchQueue.Laws.{merge-IsUnique}
use symphony_ts.Orchestrator.DispatchQueue.Attempts.{Continues, merge-Continues}
use symphony_ts.Orchestrator.PollCycle.{
  halted, clear, due_retries, poll_queue, dispatch_queue, release_ended,
}
use symphony_ts.Orchestrator.PollCycle.Laws.{
  dispatch_queue_lem, poll_queue-IsDispatchable, poll_queue_paused,
}
use symphony_ts.Tests.Data.{plain, urgent, retry_of}

abbrev entry_of : ℕ → QueueEntry
entry_of n = record { issue = plain n; attempt = 1; source = ready }

abbrev three_entries : List QueueEntry
three_entries = entry_of 4 ∷ entry_of 5 ∷ entry_of 6 ∷ []

abbrev one_reserved : LocalDispatchRuntimeState
one_reserved = record { reserved_issue_numbers = 4 ∷ []; background_tasks = [] }

abbrev tasks : QueueEntry → ℕ
tasks entry = entry.issue.number

starts_one : (dispatch_queue tasks 2 three_entries [] one_reserved).0 ≡ entry_of 5 ∷ []
unfolding dispatch_queue count_reserved_local_dispatches has_reserved_local_dispatch contains
    reserve_local_dispatch
starts_one = refl

one_reserved-IsUnique : IsUnique one_reserved.reserved_issue_numbers
unfolding contains
one_reserved-IsUnique = (refl, tt)

halted≢clear : halted ≢ clear
halted≢clear e = cc e

-- Issue 4 ends after the slots were counted: one task is started, though two slots are free.
dispatch_queue_lem_example :
    let (started, after) = dispatch_queue tasks 2 three_entries (4 ∷ []) one_reserved in
    (after.reserved_issue_numbers
      ≡ (release_ended one_reserved (4 ∷ [])).reserved_issue_numbers ++ entry_numbers started)
    × IsUnique after.reserved_issue_numbers
    × (count_reserved_local_dispatches after ≤ max 2 (count_reserved_local_dispatches one_reserved))
    × ((length started ≡ 2 - count_reserved_local_dispatches one_reserved)
        ⊎ All
            (λ entry. contains after.reserved_issue_numbers entry.issue.number ≡ true)
            three_entries)
dispatch_queue_lem_example =
    dispatch_queue_lem tasks 2 three_entries (4 ∷ []) one_reserved one_reserved-IsUnique

abbrev candidates : List RuntimeIssue
candidates = plain 5 ∷ urgent 9 ∷ plain 4 ∷ []

abbrev never : ℕ → Bool
never _ = false

orders_urgent_first :
    order_ready_candidates candidates [] [] never ≡ urgent 9 ∷ plain 4 ∷ plain 5 ∷ []
unfolding order_ready_candidates sort_by filter contains compare_runtime_issues_by_queue_priority
orders_urgent_first = refl

order_ready_candidates_sorted_example :
    Perm
      (order_ready_candidates candidates (plain 4 ∷ []) [] never)
      (filter (may_start (plain 4 ∷ []) [] never) candidates)
    × IsPairwise IssuePrecedes (order_ready_candidates candidates (plain 4 ∷ []) [] never)
order_ready_candidates_sorted_example =
    order_ready_candidates_sorted candidates (plain 4 ∷ []) [] never

abbrev resolve : ℕ → Dict ℕ ℕ → ℕ
resolve _ attempts = length attempts

two-IsUnique : IsUnique {A = ℕ} (4 ∷ 5 ∷ [])
unfolding contains
two-IsUnique = (refl, (refl, tt))

merge-IsUnique_example :
    IsUnique (
      entry_numbers (merge_dispatch_queue never resolve (plain 4 ∷ plain 5 ∷ []) (plain 4 ∷ []) []))
merge-IsUnique_example =
    merge-IsUnique never resolve (plain 4 ∷ plain 5 ∷ []) (plain 4 ∷ []) [] two-IsUnique
      one_reserved-IsUnique

merge-Continues_example :
    All
      (λ retry. All (Continues retry) (
        merge_dispatch_queue never
          (resolve_run_sequence create_follow_up_runtime_state)
          (plain 4 ∷ plain 5 ∷ [])
          (plain 4 ∷ [])
          (retry_of 4 10 ∷ [])))
      (retry_of 4 10 ∷ [])
merge-Continues_example =
    merge-Continues never create_follow_up_runtime_state (plain 4 ∷ plain 5 ∷ []) (plain 4 ∷ [])
      (retry_of 4 10 ∷ []) one_reserved-IsUnique

abbrev one_retry : RetryRuntimeState
one_retry = record {
  queue_by_issue_number = (5, retry_of 5 10) ∷ [];
  next_failure_retry_attempt_by_issue_number = [];
}

poll_queue-IsDispatchable_example :
    let (queue, left) =
      poll_queue one_retry create_follow_up_runtime_state none clear 20 candidates [] in
    All
      (λ entry.
        (contains (retry_numbers (due_retries one_retry none clear 20).0) entry.issue.number ≡ true)
        ⊎ (has_queued_retry left entry.issue.number ≡ false))
      queue
poll_queue-IsDispatchable_example =
    poll_queue-IsDispatchable one_retry create_follow_up_runtime_state none clear 20 candidates []

poll_queue_paused_example :
    All
      (λ entry. entry.source ≡ running)
      (poll_queue one_retry create_follow_up_runtime_state none halted 20 candidates
        (plain 7 ∷ [])).0
poll_queue_paused_example =
    poll_queue_paused one_retry create_follow_up_runtime_state none halted 20 candidates
      (plain 7 ∷ []) (inr halted≢clear)
