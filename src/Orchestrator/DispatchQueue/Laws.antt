-- ===== src/Orchestrator/DispatchQueue/Laws.antt =====
-- The merged queue: no issue twice, no retry before it is due, the attempt of each due retry.
use symphony_ts.Base.{
  ℕ, ◌≡◌, refl, ◌⊎◌, Bool, true, false, not, ◌&&◌, ◌||◌, List, [], ◌∷◌, some, arith, filter, nat_eq,
  nat_beq_iff, All, Bool-cases, inl, inr, All-append, All-map, All-tests,
}
use mathlib.Core.List.{map-append, append-nil}
use symphony_ts.Base.Dict
use symphony_ts.Base.Dict.{Dict}
use symphony_ts.Base.Dict.Laws.{get-set}
use symphony_ts.Base.Sets.{contains, IsUnique, AreDisjoint-of, IsUnique-join, sort_by-IsUnique}
use symphony_ts.Base.Sort.{sort_by, sort_by-All}
use symphony_ts.Domain.Issue.{RuntimeIssue, compare_runtime_issues_by_queue_priority}
use symphony_ts.Domain.Retry.{RetryState}
use symphony_ts.Orchestrator.DispatchQueue.{
  QueueEntry, running, issue_numbers, retry_numbers, entry_numbers, is_ready_candidate,
  order_ready_candidates, retry_attempts_from, running_entries, ready_entries, merge_dispatch_queue,
  by_number,
}

pub has-retry_attempts :
    (due : List RetryState) (m : Dict ℕ ℕ) (n : ℕ)
    → Dict.has (retry_attempts_from due m) n ≡ contains (retry_numbers due) n || Dict.has m n
unfolding retry_attempts_from contains Dict.has
has-retry_attempts [] m n = refl
has-retry_attempts (r ∷ rs) m n = ground (
  arith,
  has-retry_attempts rs (Dict.set m r.issue.number r.next_attempt) n,
  get-set m r.issue.number r.next_attempt n,
)

get-retry_attempts_other :
    (due : List RetryState) (m : Dict ℕ ℕ) (n : ℕ)
    → contains (retry_numbers due) n ≡ false
    → Dict.get (retry_attempts_from due m) n ≡ Dict.get m n
unfolding retry_attempts_from contains
get-retry_attempts_other [] m n h = refl
get-retry_attempts_other (r ∷ rs) m n h = ground (
  arith,
  get-retry_attempts_other rs (Dict.set m r.issue.number r.next_attempt) n,
  get-set m r.issue.number r.next_attempt n,
)

-- Where each issue has one due retry, the map holds the next attempt of each of them.
pub get-retry_attempts :
    (due : List RetryState) (m : Dict ℕ ℕ)
    → IsUnique (retry_numbers due)
    → All (λ r. Dict.get (retry_attempts_from due m) r.issue.number ≡ some r.next_attempt) due
unfolding retry_attempts_from
get-retry_attempts [] m u = tt
get-retry_attempts (r ∷ rs) m (f, u) = (
  ground (
    arith,
    get-retry_attempts_other rs (Dict.set m r.issue.number r.next_attempt) r.issue.number f,
    get-set m r.issue.number r.next_attempt r.issue.number,
  ),
  get-retry_attempts rs (Dict.set m r.issue.number r.next_attempt) u,
)

due_or_unqueued : (c q : Bool) → not c && q ≡ false → (c ≡ true) ⊎ (q ≡ false)
due_or_unqueued true q h = inl refl
due_or_unqueued false q h = inr h

has_due :
    (due : List RetryState) (n : ℕ)
    → contains (retry_numbers due) n ≡ Dict.has (retry_attempts_from due []) n
unfolding Dict.has Dict.get
has_due due n = ground (arith, has-retry_attempts due [] n)

module _ (queued : ℕ → Bool) (resolve : ℕ → Dict ℕ ℕ → ℕ) where
  contains-running_entries :
      (attempts : Dict ℕ ℕ) (issues : List RuntimeIssue) (n : ℕ)
      → contains (issue_numbers issues) n ≡ false
      → contains (entry_numbers (running_entries queued resolve attempts issues)) n ≡ false
  unfolding running_entries contains
  contains-running_entries attempts [] n h = refl
  contains-running_entries attempts (i ∷ is) n h =
      ground (arith, contains-running_entries attempts is n)

  running_entries-IsUnique :
      (attempts : Dict ℕ ℕ) (issues : List RuntimeIssue)
      → IsUnique (issue_numbers issues)
      → IsUnique (entry_numbers (running_entries queued resolve attempts issues))
  unfolding running_entries
  running_entries-IsUnique attempts [] u = tt
  running_entries-IsUnique attempts (i ∷ is) (f, u) =
      elim (Bool-cases (not (Dict.has attempts i.number) && queued i.number)) [
        | inl skip ↦ rw skip (running_entries-IsUnique attempts is u)
        | inr keep ↦ rw keep (
          contains-running_entries attempts is i.number f,
          running_entries-IsUnique attempts is u,
        )
      ]

  contains-ready_entries :
      (attempts : Dict ℕ ℕ) (taken : List ℕ) (issues : List RuntimeIssue) (n : ℕ)
      → (contains taken n ≡ true) ⊎ (contains (issue_numbers issues) n ≡ false)
      → contains (entry_numbers (ready_entries queued resolve attempts taken issues)) n ≡ false
  unfolding ready_entries contains
  contains-ready_entries attempts taken [] n h = refl
  contains-ready_entries attempts taken (i ∷ is) n h =
      ground (arith, contains-ready_entries attempts taken is n, nat_beq_iff i.number n)

  ready_entries-IsUnique :
      (attempts : Dict ℕ ℕ) (taken : List ℕ) (issues : List RuntimeIssue)
      → IsUnique (issue_numbers issues)
      → IsUnique (entry_numbers (ready_entries queued resolve attempts taken issues))
  unfolding ready_entries
  ready_entries-IsUnique attempts taken [] u = tt
  ready_entries-IsUnique attempts taken (i ∷ is) (f, u) =
      elim (Bool-cases (contains taken i.number)) [
        | inl skip ↦ rw skip (ready_entries-IsUnique attempts taken is u)
        | inr keep ↦ rw keep (
          contains-ready_entries attempts taken is i.number (inr f),
          ready_entries-IsUnique attempts taken is u,
        )
      ]

  -- No issue stands twice in the merged queue when none stands twice among the running candidates
  -- or among the ready ones, even if it stands among both.
  pub merge-IsUnique :
      (ready going : List RuntimeIssue) (due : List RetryState)
      → IsUnique (issue_numbers ready)
      → IsUnique (issue_numbers going)
      → IsUnique (entry_numbers (merge_dispatch_queue queued resolve ready going due))
  unfolding merge_dispatch_queue
  merge-IsUnique ready going due u v =
      let attempts : Dict ℕ ℕ = retry_attempts_from due [] in
      let entries : List QueueEntry =
        running_entries queued resolve attempts (sort_by by_number going) in
      let later : List QueueEntry =
        ready_entries queued resolve attempts (entry_numbers entries) ready in
      rw (map-append _ entries later) (
        IsUnique-join (entry_numbers entries) (entry_numbers later)
          (running_entries-IsUnique attempts (sort_by by_number going)
            (sort_by-IsUnique (λ issue. issue.number) by_number going v))
          (ready_entries-IsUnique attempts (entry_numbers entries) ready u)
          (AreDisjoint-of (entry_numbers entries) (entry_numbers later)
            (λ n c. contains-ready_entries attempts (entry_numbers entries) ready n (inl c))))

  -- What may be dispatched now: an issue with a due retry, or with none queued.
  abbrev pub IsDispatchable : List RetryState → ℕ → Type 0
  IsDispatchable due n = (contains (retry_numbers due) n ≡ true) ⊎ (queued n ≡ false)

  running_entries-All :
      (due : List RetryState) (issues : List RuntimeIssue)
      → All
          (λ e. IsDispatchable due e.issue.number)
          (running_entries queued resolve (retry_attempts_from due []) issues)
  unfolding running_entries
  running_entries-All due [] = tt
  running_entries-All due (i ∷ is) =
      elim (Bool-cases (not (Dict.has (retry_attempts_from due []) i.number) && queued i.number)) [
        | inl skip ↦ rw skip (running_entries-All due is)
        | inr keep ↦
            rw keep (
              due_or_unqueued _ _ (rw (← has_due due i.number) at keep),
              running_entries-All due is,
            )
      ]

  ready_entries-All :
      (P : ℕ → Type 0) (attempts : Dict ℕ ℕ) (taken : List ℕ) (issues : List RuntimeIssue)
      → All (λ i. P i.number) issues
      → All (λ e. P e.issue.number) (ready_entries queued resolve attempts taken issues)
  unfolding ready_entries
  ready_entries-All P attempts taken [] h = tt
  ready_entries-All P attempts taken (i ∷ is) (p, h) = elim (Bool-cases (contains taken i.number)) [
    | inl skip ↦ rw skip (ready_entries-All P attempts taken is h)
    | inr keep ↦ rw keep (p, ready_entries-All P attempts taken is h)
  ]

  -- Each entry has the attempt that the follow-up state and the due retries resolve.
  abbrev pub IsResolved : Dict ℕ ℕ → QueueEntry → Type 0
  IsResolved attempts entry = entry.attempt ≡ resolve entry.issue.number attempts

  running_entries-IsResolved :
      (attempts : Dict ℕ ℕ) (issues : List RuntimeIssue)
      → All (IsResolved attempts) (running_entries queued resolve attempts issues)
  unfolding running_entries
  running_entries-IsResolved attempts [] = tt
  running_entries-IsResolved attempts (i ∷ is) =
      elim (Bool-cases (not (Dict.has attempts i.number) && queued i.number)) [
        | inl skip ↦ rw skip (running_entries-IsResolved attempts is)
        | inr keep ↦ rw keep (refl, running_entries-IsResolved attempts is)
      ]

  ready_entries-IsResolved :
      (attempts : Dict ℕ ℕ) (taken : List ℕ) (issues : List RuntimeIssue)
      → All (IsResolved attempts) (ready_entries queued resolve attempts taken issues)
  unfolding ready_entries
  ready_entries-IsResolved attempts taken [] = tt
  ready_entries-IsResolved attempts taken (i ∷ is) = elim (Bool-cases (contains taken i.number)) [
    | inl skip ↦ rw skip (ready_entries-IsResolved attempts taken is)
    | inr keep ↦ rw keep (refl, ready_entries-IsResolved attempts taken is)
  ]

  pub merge-IsResolved :
      (ready going : List RuntimeIssue) (due : List RetryState)
      → All
          (IsResolved (retry_attempts_from due []))
          (merge_dispatch_queue queued resolve ready going due)
  unfolding merge_dispatch_queue
  merge-IsResolved ready going due =
      let attempts : Dict ℕ ℕ = retry_attempts_from due [] in
      let entries : List QueueEntry =
        running_entries queued resolve attempts (sort_by by_number going) in
      All-append (IsResolved attempts) entries
        (ready_entries queued resolve attempts (entry_numbers entries) ready)
        (running_entries-IsResolved attempts (sort_by by_number going))
        (ready_entries-IsResolved attempts (entry_numbers entries) ready)

  pub merge-IsDispatchable :
      (ready going : List RuntimeIssue) (due : List RetryState)
      → All (λ i. IsDispatchable due i.number) ready
      → All
          (λ e. IsDispatchable due e.issue.number)
          (merge_dispatch_queue queued resolve ready going due)
  unfolding merge_dispatch_queue
  merge-IsDispatchable ready going due h =
      let attempts : Dict ℕ ℕ = retry_attempts_from due [] in
      let entries : List QueueEntry =
        running_entries queued resolve attempts (sort_by by_number going) in
      All-append (λ e. IsDispatchable due e.issue.number) entries
        (ready_entries queued resolve attempts (entry_numbers entries) ready)
        (running_entries-All due (sort_by by_number going))
        (ready_entries-All (IsDispatchable due) attempts (entry_numbers entries) ready h)

  candidate-IsDispatchable :
      (going : List RuntimeIssue) (due : List RetryState) (i : RuntimeIssue)
      → is_ready_candidate going due queued i ≡ true
      → IsDispatchable due i.number
  unfolding is_ready_candidate
  candidate-IsDispatchable going due i h =
      due_or_unqueued (contains (retry_numbers due) i.number) (queued i.number) (ground arith)

  -- The ready queue that is merged passes the test, for the due retries that it was ordered by.
  pub order-IsDispatchable :
      (ready going : List RuntimeIssue) (due : List RetryState)
      → All (λ i. IsDispatchable due i.number) (order_ready_candidates ready going due queued)
  unfolding order_ready_candidates
  order-IsDispatchable ready going due =
      sort_by-All compare_runtime_issues_by_queue_priority (λ i. IsDispatchable due i.number)
        (filter (is_ready_candidate going due queued) ready)
        (All-map (λ i. is_ready_candidate going due queued i ≡ true)
          (λ i. IsDispatchable due i.number) (λ i h. candidate-IsDispatchable going due i h)
          (filter (is_ready_candidate going due queued) ready)
          (All-tests (is_ready_candidate going due queued) ready))

  running_entries_running :
      (attempts : Dict ℕ ℕ) (issues : List RuntimeIssue)
      → All (λ e. e.source ≡ running) (running_entries queued resolve attempts issues)
  unfolding running_entries
  running_entries_running attempts [] = tt
  running_entries_running attempts (i ∷ is) =
      elim (Bool-cases (not (Dict.has attempts i.number) && queued i.number)) [
        | inl skip ↦ rw skip (running_entries_running attempts is)
        | inr keep ↦ rw keep (refl, running_entries_running attempts is)
      ]

  pub merge_running :
      (candidates : List RuntimeIssue) (due : List RetryState)
      → All (λ e. e.source ≡ running) (merge_dispatch_queue queued resolve [] candidates due)
  unfolding merge_dispatch_queue ready_entries
  merge_running candidates due =
      rw (append-nil _) (running_entries_running _ (sort_by by_number candidates))
