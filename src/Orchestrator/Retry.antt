-- ===== src/Orchestrator/Retry.antt =====
-- src/orchestrator/retry-state.ts: the queue of failed issues that wait for their next run.
-- `now` is an argument; an operation that changes the maps returns the new state.
pub mod Laws
use symphony_ts.Base.{
  ℕ, ◌+◌, String, Bool, List, [], ◌∷◌, ◌++◌, Option, leb, or_else, filter, if◌then◌else◌, nat_eq,
}
use symphony_ts.Base.Dict
use symphony_ts.Base.Dict.{Dict}
use symphony_ts.Domain.Issue.{RuntimeIssue}
use symphony_ts.Domain.Retry.{RetryClass, RetryState}

pub record RetryRuntimeState : Type 0 where
  pub queue_by_issue_number : Dict ℕ RetryState
  pub next_failure_retry_attempt_by_issue_number : Dict ℕ ℕ

unfoldable pub create_retry_runtime_state : RetryRuntimeState
create_retry_runtime_state = record {
  queue_by_issue_number = [];
  next_failure_retry_attempt_by_issue_number = [];
}

unfoldable pub resolve_failure_retry_attempt : RetryRuntimeState → ℕ → ℕ
resolve_failure_retry_attempt state issue_number =
    or_else (Dict.get state.next_failure_retry_attempt_by_issue_number issue_number) 1

unfoldable pub has_queued_retry : RetryRuntimeState → ℕ → Bool
has_queued_retry state issue_number = Dict.has state.queue_by_issue_number issue_number

unfoldable pub clear_retry_state : RetryRuntimeState → ℕ → RetryRuntimeState
clear_retry_state state issue_number = record {
  queue_by_issue_number = Dict.delete state.queue_by_issue_number issue_number;
  next_failure_retry_attempt_by_issue_number =
      Dict.delete state.next_failure_retry_attempt_by_issue_number issue_number;
}

unfoldable pub list_queued_retries : RetryRuntimeState → List RetryState
list_queued_retries state = Dict.values state.queue_by_issue_number

unfoldable pub is_due : ℕ → RetryState → Bool
is_due now entry = leb entry.due_at now

-- The loop of `collectDueRetries`, over the entries that the map had at its start: a deletion of
-- the visited entry takes no other one out of the iteration.
unfoldable pub collect_due_loop :
    ℕ
    → List (ℕ × RetryState)
    → List RetryState
    → Dict ℕ RetryState
    → List RetryState × Dict ℕ RetryState
unfolding is_due
collect_due_loop now [] due queue = (due, queue)
collect_due_loop now ((issue_number, entry) ∷ entries) due queue =
    collect_due_loop now entries (if is_due now entry then due ++ entry ∷ [] else due)
      (if is_due now entry then Dict.delete queue issue_number else queue)

unfoldable pub collect_due_retries : RetryRuntimeState → ℕ → List RetryState × RetryRuntimeState
unfolding collect_due_loop
collect_due_retries state now =
    let (due, queue) =
      collect_due_loop now state.queue_by_issue_number [] state.queue_by_issue_number in
    (due, record state { queue_by_issue_number = queue })

unfoldable pub list_due_retries : RetryRuntimeState → ℕ → List RetryState
unfolding is_due
list_due_retries state now = filter (is_due now) (Dict.values state.queue_by_issue_number)

pub record ScheduleRetryOptions : Type 0 where
  pub issue : RuntimeIssue
  pub run_sequence : ℕ
  pub preferred_host : Option String
  pub retry_class : RetryClass
  pub backoff_ms : ℕ
  pub message : String
  pub now : ℕ

-- The entry that `scheduleRetry` builds.
unfoldable pub retry_entry : RetryRuntimeState → ScheduleRetryOptions → RetryState
unfolding resolve_failure_retry_attempt
retry_entry state options = record {
  issue = options.issue;
  run_sequence = options.run_sequence;
  failure_retry_attempt = resolve_failure_retry_attempt state options.issue.number;
  next_attempt = options.run_sequence + 1;
  preferred_host = options.preferred_host;
  retry_class = options.retry_class;
  scheduled_at = options.now;
  backoff_ms = options.backoff_ms;
  due_at = options.now + options.backoff_ms;
  last_error = options.message;
}

unfoldable pub schedule_retry :
    RetryRuntimeState → ScheduleRetryOptions → RetryState × RetryRuntimeState
unfolding retry_entry resolve_failure_retry_attempt
schedule_retry state options =
    let entry = retry_entry state options in
    (
      entry,
      record {
        queue_by_issue_number = Dict.set state.queue_by_issue_number options.issue.number entry;
        next_failure_retry_attempt_by_issue_number =
            Dict.set state.next_failure_retry_attempt_by_issue_number options.issue.number
              (entry.failure_retry_attempt + 1);
      },
    )
