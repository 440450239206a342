-- ===== src/Tests/Retries.antt =====
-- The retry queue at a state with one due and one waiting entry.
use symphony_ts.Base.{◌≡◌, refl, List, [], ◌∷◌, filter, suc, nat_eq}
use symphony_ts.Base.Dict.{get}
use symphony_ts.Base.Dict.Laws.{IsDistinct}
use symphony_ts.Orchestrator.Retry.{
  RetryRuntimeState, ScheduleRetryOptions, create_retry_runtime_state, collect_due_retries,
  list_due_retries, resolve_failure_retry_attempt,
}
use symphony_ts.Domain.Retry.{run_failure}
use mathlib.Core.Option.{none}
use symphony_ts.Orchestrator.Retry.Laws.{
  Op, schedule, collect, run, failures, IsValid, collect_due_retries_partition, resolve-run,
  run-IsValid, waits,
}
use symphony_ts.Tests.Data.{plain, retry_of}

abbrev two_retries : RetryRuntimeState
two_retries = record {
  queue_by_issue_number = (3, retry_of 3 10) ∷ (4, retry_of 4 50) ∷ [];
  next_failure_retry_attempt_by_issue_number = (3, 2) ∷ (4, 2) ∷ [];
}

two_retries-IsDistinct : IsDistinct two_retries.queue_by_issue_number
unfolding get
two_retries-IsDistinct = (refl, (refl, tt))

collects_one : (collect_due_retries two_retries 20).0 ≡ retry_of 3 10 ∷ []
unfolding collect_due_retries
collects_one = refl

collect_due_retries_partition_example :
    ((collect_due_retries two_retries 20).0 ≡ list_due_retries two_retries 20)
    × ((collect_due_retries two_retries 20).1.queue_by_issue_number
        ≡ filter (waits 20) two_retries.queue_by_issue_number)
    × ((collect_due_retries two_retries 20).1.next_failure_retry_attempt_by_issue_number
        ≡ two_retries.next_failure_retry_attempt_by_issue_number)
collect_due_retries_partition_example =
    collect_due_retries_partition two_retries 20 two_retries-IsDistinct

abbrev failed_issue : ScheduleRetryOptions
failed_issue = record {
  issue = plain 3;
  run_sequence = 1;
  preferred_host = none;
  retry_class = run_failure;
  backoff_ms = 10;
  message = "failed";
  now = 0;
}

abbrev history : List Op
history = schedule failed_issue ∷ collect 20 ∷ schedule failed_issue ∷ []

first_attempt : resolve_failure_retry_attempt create_retry_runtime_state 3 ≡ 1
unfolding resolve_failure_retry_attempt create_retry_runtime_state get
first_attempt = refl

resolve-run_example :
    resolve_failure_retry_attempt (run create_retry_runtime_state history) 3
    ≡ suc (failures 3 0 history)
resolve-run_example = resolve-run create_retry_runtime_state history 3 0 first_attempt

run-IsValid_example : IsValid (run create_retry_runtime_state history)
run-IsValid_example = run-IsValid history
