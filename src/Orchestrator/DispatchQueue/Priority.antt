-- ===== src/Orchestrator/DispatchQueue/Priority.antt =====
-- The order of ready issues is a total preorder, and the ready queue follows it.
use mathlib.Core.List.{Perm}
use mathlib.Core.Path.{fun_ext}
use native.Mathlib.Decide.{dec_lt}
use symphony_ts.Base.{
  ℕ, ◌+◌, ◌<◌, ◌≤◌, ◌≡◌, ◌⊎◌, Bool, true, List, Option, none, some, arith, filter, if◌then◌else◌,
  not, inl, inr, ◌&&◌, ◌||◌, nat_eq,
}
use symphony_ts.Base.Int.{pos, leb_ℤ, pos_part, neg_part, sub_ℕ}
use symphony_ts.Base.Sets.{contains}
use symphony_ts.Base.Sort.{
  sort_by, sort_by-perm, sort_by-IsSorted, IsSorted, at_most, IsPairwise, IsSorted-IsPairwise,
}
use symphony_ts.Domain.Issue.{
  QueuePriority, RuntimeIssue, compare_queue_priority, compare_runtime_issues_by_queue_priority,
  is_zero,
}
use symphony_ts.Domain.Retry.{RetryState}
use symphony_ts.Orchestrator.DispatchQueue.{
  issue_numbers, retry_numbers, is_ready_candidate, order_ready_candidates,
}

-- The intended order: lower ranks first, issues without a priority last, then by issue number. A
-- rank is compared through its two parts.
abbrev pub Precedes : Option QueuePriority → Option QueuePriority → ℕ → ℕ → Type 0
Precedes (some p) (some q) m n =
    (pos_part p.rank + neg_part q.rank < neg_part p.rank + pos_part q.rank)
    ⊎ ((pos_part p.rank + neg_part q.rank ≡ neg_part p.rank + pos_part q.rank) × (m ≤ n))
Precedes (some p) none m n = Unit
Precedes none (some q) m n = ⊥
Precedes none none m n = m ≤ n

difference-cases :
    (x y m n : ℕ)
    → leb_ℤ (if not (is_zero (sub_ℕ x y)) then sub_ℕ x y else sub_ℕ m n) (pos 0) ≡ true
    → (x < y) ⊎ ((x ≡ y) × (m ≤ n))
difference-cases x y m n h = elim (dec_lt x y) [
  | yes p ↦ inl p
  | no p ↦ inr (ground arith, ground arith)
]

difference-test :
    (x y m n : ℕ)
    → (x < y) ⊎ ((x ≡ y) × (m ≤ n))
    → leb_ℤ (if not (is_zero (sub_ℕ x y)) then sub_ℕ x y else sub_ℕ m n) (pos 0) ≡ true
difference-test x y m n h = ground arith

abbrev test : Option QueuePriority → Option QueuePriority → ℕ → ℕ → Bool
test p q m n =
    leb_ℤ
      (if not (is_zero (compare_queue_priority p q)) then compare_queue_priority p q else sub_ℕ m n)
      (pos 0)

test→Precedes : (p q : Option QueuePriority) (m n : ℕ) → test p q m n ≡ true → Precedes p q m n
unfolding compare_queue_priority
test→Precedes (some p) (some q) m n h =
    difference-cases (pos_part p.rank + neg_part q.rank) (neg_part p.rank + pos_part q.rank) m n h
test→Precedes (some p) none m n h = tt
test→Precedes none (some q) m n h = ground arith
test→Precedes none none m n h = ground arith

Precedes→test : (p q : Option QueuePriority) (m n : ℕ) → Precedes p q m n → test p q m n ≡ true
unfolding compare_queue_priority
Precedes→test (some p) (some q) m n h =
    difference-test (pos_part p.rank + neg_part q.rank) (neg_part p.rank + pos_part q.rank) m n h
Precedes→test (some p) none m n h = ground arith
Precedes→test none (some q) m n h = elim h [ ]
Precedes→test none none m n h = ground arith

Precedes-trans :
    (p q r : Option QueuePriority) (l m n : ℕ)
    → Precedes p q l m
    → Precedes q r m n
    → Precedes p r l n
Precedes-trans (some p) (some q) (some r) l m n h k = grind arith
Precedes-trans (some p) (some q) none l m n h k = tt
Precedes-trans (some p) none (some r) l m n h k = elim k [ ]
Precedes-trans (some p) none none l m n h k = tt
Precedes-trans none none (some r) l m n h k = elim k [ ]
Precedes-trans none none none l m n h k = omega arith
Precedes-trans none (some q) r l m n h k = elim h [ ]

Precedes-total : (p q : Option QueuePriority) (m n : ℕ) → Precedes p q m n ⊎ Precedes q p n m
Precedes-total (some p) (some q) m n = grind arith
Precedes-total (some p) none m n = inl tt
Precedes-total none (some q) m n = inr tt
Precedes-total none none m n = omega arith

abbrev pub IssuePrecedes : RuntimeIssue → RuntimeIssue → Type 0
IssuePrecedes x y = Precedes x.queue_priority y.queue_priority x.number y.number

at_most→IssuePrecedes :
    (x y : RuntimeIssue)
    → at_most compare_runtime_issues_by_queue_priority x y ≡ true
    → IssuePrecedes x y
unfolding compare_runtime_issues_by_queue_priority
at_most→IssuePrecedes x y h = test→Precedes x.queue_priority y.queue_priority x.number y.number h

IssuePrecedes→at_most :
    (x y : RuntimeIssue)
    → IssuePrecedes x y
    → at_most compare_runtime_issues_by_queue_priority x y ≡ true
unfolding compare_runtime_issues_by_queue_priority
IssuePrecedes→at_most x y h = Precedes→test x.queue_priority y.queue_priority x.number y.number h

sort-IsSorted :
    (xs : List RuntimeIssue)
    → IsSorted compare_runtime_issues_by_queue_priority
        (sort_by compare_runtime_issues_by_queue_priority xs)
sort-IsSorted =
    sort_by-IsSorted compare_runtime_issues_by_queue_priority
      (λ x y. elim (Precedes-total x.queue_priority y.queue_priority x.number y.number) [
        | inl p ↦ inl (IssuePrecedes→at_most x y p)
        | inr p ↦ inr (IssuePrecedes→at_most y x p)
      ])
      (λ x y z h k. IssuePrecedes→at_most x z (
        Precedes-trans x.queue_priority y.queue_priority z.queue_priority x.number y.number z.number
          (at_most→IssuePrecedes x y h) (at_most→IssuePrecedes y z k)))

-- An issue that no running candidate shadows, and whose retry, if one is queued, is due.
abbrev pub may_start : List RuntimeIssue → List RetryState → (ℕ → Bool) → RuntimeIssue → Bool
may_start running due queued issue =
    not (contains (issue_numbers running) issue.number)
    && (contains (retry_numbers due) issue.number || not (queued issue.number))

pub is_ready_candidate-may_start :
    (running : List RuntimeIssue) (due : List RetryState) (queued : ℕ → Bool) (issue : RuntimeIssue)
    → is_ready_candidate running due queued issue ≡ may_start running due queued issue
unfolding is_ready_candidate
is_ready_candidate-may_start running due queued issue = ground arith

-- The ready queue holds exactly the ready candidates that are not running and whose retry, if one
-- is queued, is due, each as often as it is among the candidates; and every issue precedes all later
-- ones: a lower rank first, issues without a priority last, and lower numbers first among equals.
pub order_ready_candidates_sorted :
    (ready running : List RuntimeIssue) (due : List RetryState) (queued : ℕ → Bool)
    → Perm
        (order_ready_candidates ready running due queued)
        (filter (may_start running due queued) ready)
      × IsPairwise IssuePrecedes (order_ready_candidates ready running due queued)
unfolding order_ready_candidates
order_ready_candidates_sorted ready running due queued = (
  rw (← fun_ext (is_ready_candidate-may_start running due queued))
      (sort_by-perm compare_runtime_issues_by_queue_priority _),
  IsSorted-IsPairwise compare_runtime_issues_by_queue_priority IssuePrecedes at_most→IssuePrecedes _
      (sort-IsSorted _),
)
