-- ===== src/Orchestrator/DispatchQueue.antt =====
-- src/orchestrator/dispatch-queue.ts: the order in which issues are dispatched. A `Set` of numbers
-- that is only asked for membership is the list of the numbers.
pub mod Attempts
pub mod Laws
pub mod Priority
use symphony_ts.Base.{
  ℕ, ◌<◌, Bool, true, false, not, ◌&&◌, List, [], ◌∷◌, ◌++◌, map, filter, if◌then◌else◌, nat_eq,
}
use symphony_ts.Base.Int.{sub_ℕ, ℤ}
use symphony_ts.Base.Dict
use symphony_ts.Base.Dict.{Dict}
use symphony_ts.Base.Sets.{contains}
use symphony_ts.Base.Sort.{sort_by}
use symphony_ts.Domain.Issue.{RuntimeIssue, compare_runtime_issues_by_queue_priority}
use symphony_ts.Domain.Retry.{RetryState}

pub data QueueSource : Type 0 where
  ready running : QueueSource

pub record QueueEntry : Type 0 where
  pub issue : RuntimeIssue
  pub attempt : ℕ
  pub source : QueueSource

abbrev pub issue_numbers : List RuntimeIssue → List ℕ
issue_numbers = map (λ issue. issue.number)

abbrev pub retry_numbers : List RetryState → List ℕ
retry_numbers = map (λ retry. retry.issue.number)

abbrev pub entry_numbers : List QueueEntry → List ℕ
entry_numbers = map (λ entry. entry.issue.number)

-- The test of the `filter` in `orderReadyCandidates`.
unfoldable pub is_ready_candidate :
    List RuntimeIssue → List RetryState → (ℕ → Bool) → RuntimeIssue → Bool
is_ready_candidate running_candidates due_retries has_queued_retry issue =
    if contains (issue_numbers running_candidates) issue.number
    then false
    else if not (contains (retry_numbers due_retries) issue.number) && has_queued_retry issue.number
    then false
    else true

unfoldable pub order_ready_candidates :
    List RuntimeIssue → List RuntimeIssue → List RetryState → (ℕ → Bool) → List RuntimeIssue
unfolding is_ready_candidate
order_ready_candidates ready_candidates running_candidates due_retries has_queued_retry =
    sort_by compare_runtime_issues_by_queue_priority
      (filter (is_ready_candidate running_candidates due_retries has_queued_retry) ready_candidates)

-- The map that the first loop of `mergeDispatchQueue` fills.
unfoldable pub retry_attempts_from : List RetryState → Dict ℕ ℕ → Dict ℕ ℕ
retry_attempts_from [] attempts = attempts
retry_attempts_from (retry ∷ retries) attempts =
    retry_attempts_from retries (Dict.set attempts retry.issue.number retry.next_attempt)

abbrev pub by_number : RuntimeIssue → RuntimeIssue → ℤ
by_number left right = sub_ℕ left.number right.number

module _ (has_queued_retry : ℕ → Bool) (resolve_attempt_number : ℕ → Dict ℕ ℕ → ℕ) where
  unfoldable pub running_entries : Dict ℕ ℕ → List RuntimeIssue → List QueueEntry
  running_entries attempts [] = []
  running_entries attempts (issue ∷ issues) =
      let rest = running_entries attempts issues in
      if not (Dict.has attempts issue.number) && has_queued_retry issue.number
      then rest
      else record {
        issue = issue;
        attempt = resolve_attempt_number issue.number attempts;
        source = running;
      }
        ∷ rest

  unfoldable pub ready_entries : Dict ℕ ℕ → List ℕ → List RuntimeIssue → List QueueEntry
  ready_entries attempts running_numbers [] = []
  ready_entries attempts running_numbers (issue ∷ issues) =
      let rest = ready_entries attempts running_numbers issues in
      if contains running_numbers issue.number
      then rest
      else record {
        issue = issue;
        attempt = resolve_attempt_number issue.number attempts;
        source = ready;
      }
        ∷ rest

  unfoldable pub merge_dispatch_queue :
      List RuntimeIssue → List RuntimeIssue → List RetryState → List QueueEntry
  unfolding running_entries ready_entries retry_attempts_from
  merge_dispatch_queue ready_candidates running_candidates due_retries =
      let attempts = retry_attempts_from due_retries [] in
      let running = running_entries attempts (sort_by by_number running_candidates) in
      running ++ ready_entries attempts (entry_numbers running) ready_candidates
