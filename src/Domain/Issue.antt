-- ===== src/Domain/Issue.antt =====
-- src/domain/issue.ts and src/domain/queue-priority.ts: issues, and their order in the queue.
-- A rank is an integer of either sign; issue numbers are natural numbers.
use symphony_ts.Base.{
  ℕ, zero, String, Bool, true, false, Option, none, some, List, if◌then◌else◌, not,
}
use symphony_ts.Base.Int.{ℤ, pos, negsuc, ◌-ℤ◌, sub_ℕ}

pub record QueuePriority : Type 0 where
  pub rank : ℤ
  pub label : Option String

pub record RuntimeIssueBlocker : Type 0 where
  pub id : Option String
  pub identifier : Option String
  pub title : Option String
  pub state : Option String

-- `closed_at` is optional and nullable: both absences are `none`.
pub record RuntimeIssue : Type 0 where
  pub id : String
  pub identifier : String
  pub number : ℕ
  pub title : String
  pub description : String
  pub labels : List String
  pub state : String
  pub url : String
  pub created_at : String
  pub updated_at : String
  pub closed_at : Option String
  pub queue_priority : Option QueuePriority
  pub blocked_by : List RuntimeIssueBlocker

-- `null` and `undefined` are both `none`.
unfoldable pub compare_queue_priority : Option QueuePriority → Option QueuePriority → ℤ
compare_queue_priority (some left) (some right) = left.rank -ℤ right.rank
compare_queue_priority (some left) none = negsuc 0
compare_queue_priority none (some right) = pos 1
compare_queue_priority none none = pos 0

abbrev pub is_zero : ℤ → Bool
is_zero (pos zero) = true
is_zero _ = false

unfoldable pub compare_runtime_issues_by_queue_priority : RuntimeIssue → RuntimeIssue → ℤ
unfolding compare_queue_priority
compare_runtime_issues_by_queue_priority left right =
    let priority_comparison = compare_queue_priority left.queue_priority right.queue_priority in
    if not (is_zero priority_comparison)
    then priority_comparison
    else sub_ℕ left.number right.number
