-- ===== src/Orchestrator/DispatchQueue/Attempts.antt =====
-- The attempt numbers in the merged queue of dispatch-queue.ts, with those of follow-up-state.ts.
use symphony_ts.Base.{
  ℕ, ◌≡◌, ◌≢◌, refl, ◌⊎◌, Bool, not, ◌&&◌, List, [], ◌∷◌, some, nat_eq, All, Bool-cases, inl, inr,
  All-append, All-map, ◌==◌, arith, nat_beq_iff, subst, sym,
}
use symphony_ts.Base.Dict
use symphony_ts.Base.Dict.{Dict}
use symphony_ts.Base.Sets.{contains, IsUnique}
use symphony_ts.Base.Sort.{sort_by}
use symphony_ts.Domain.Issue.{RuntimeIssue}
use symphony_ts.Domain.Retry.{RetryState}
use symphony_ts.Orchestrator.FollowUp.{FollowUpRuntimeState, resolve_run_sequence}
use symphony_ts.Orchestrator.DispatchQueue.{
  QueueEntry, retry_numbers, entry_numbers, retry_attempts_from, running_entries, ready_entries,
  merge_dispatch_queue, by_number,
}
use symphony_ts.Orchestrator.DispatchQueue.Laws.{get-retry_attempts}

module _ (queued : ℕ → Bool) (resolve : ℕ → Dict ℕ ℕ → ℕ) where
  abbrev IsResolved : Dict ℕ ℕ → QueueEntry → Type 0
  IsResolved attempts entry = entry.attempt ≡ resolve entry.issue.number attempts

  running_entries-IsResolved :
      (attempts : Dict ℕ ℕ) (issues : List RuntimeIssue)
      → All (IsResolved attempts) (running_entries queued resolve attempts issues)
  unfolding running_entries
  running_entries-IsResolved attempts [] = tt
  running_entries-IsResolved attempts (i ∷ issues) =
      let rest = running_entries-IsResolved attempts issues in
      elim (Bool-cases (not (Dict.has attempts i.number) && queued i.number)) [
        | inl skip ↦ rw skip rest
        | inr keep ↦ rw keep (refl, rest)
      ]

  ready_entries-IsResolved :
      (attempts : Dict ℕ ℕ) (taken : List ℕ) (issues : List RuntimeIssue)
      → All (IsResolved attempts) (ready_entries queued resolve attempts taken issues)
  unfolding ready_entries
  ready_entries-IsResolved attempts taken [] = tt
  ready_entries-IsResolved attempts taken (i ∷ issues) =
      let rest = ready_entries-IsResolved attempts taken issues in
      elim (Bool-cases (contains taken i.number)) [
        | inl skip ↦ rw skip rest
        | inr keep ↦ rw keep (refl, rest)
      ]

  merge-IsResolved :
      (ready going : List RuntimeIssue) (due : List RetryState)
      → All
          (IsResolved (retry_attempts_from due []))
          (merge_dispatch_queue queued resolve ready going due)
  unfolding merge_dispatch_queue
  merge-IsResolved ready going due =
      let attempts = retry_attempts_from due [] in
      let running = running_entries queued resolve attempts (sort_by by_number going) in
      All-append (IsResolved attempts) running _
        (running_entries-IsResolved attempts (sort_by by_number going))
        (ready_entries-IsResolved attempts (entry_numbers running) ready)

-- An entry for the issue of a retry has the retry's next attempt.
abbrev pub Continues : RetryState → QueueEntry → Type 0
Continues retry entry =
    (entry.issue.number ≢ retry.issue.number) ⊎ (entry.attempt ≡ retry.next_attempt)

resolved-Continues :
    (follow_up : FollowUpRuntimeState) (attempts : Dict ℕ ℕ) (retry : RetryState)
    (entry : QueueEntry)
    → Dict.get attempts retry.issue.number ≡ some retry.next_attempt
    → entry.attempt ≡ resolve_run_sequence follow_up entry.issue.number attempts
    → Continues retry entry
unfolding resolve_run_sequence
resolved-Continues follow_up attempts retry entry found resolved =
    elim (Bool-cases (entry.issue.number == retry.issue.number)) [
      | inl q ↦
          let same = (nat_beq_iff entry.issue.number retry.issue.number).0 q in
          let here = subst (λ n. Dict.get attempts n ≡ some retry.next_attempt) (sym same) found in
          inr (ground arith)
      | inr q ↦ inl (ground arith)
    ]

-- Where each issue has one due retry, every entry of the merged queue for the issue of a due retry,
-- whether it is a running or a ready one, has that retry's next attempt as its number: no earlier
-- run's follow-up takes its place.
pub merge-Continues :
    (queued : ℕ → Bool) (follow_up : FollowUpRuntimeState) (ready going : List RuntimeIssue)
    (due : List RetryState)
    → IsUnique (retry_numbers due)
    → All
        (λ retry.
          All
            (Continues retry)
            (merge_dispatch_queue queued (resolve_run_sequence follow_up) ready going due))
        due
merge-Continues queued follow_up ready going due unique =
    All-map
      (λ (r : RetryState).
        Dict.get (retry_attempts_from due []) r.issue.number ≡ some r.next_attempt)
      _
      (λ r found.
        All-map (IsResolved queued (resolve_run_sequence follow_up) (retry_attempts_from due []))
          (Continues r)
          (λ entry. resolved-Continues follow_up (retry_attempts_from due []) r entry found) _
          (merge-IsResolved queued (resolve_run_sequence follow_up) ready going due))
      due (get-retry_attempts due [] unique)
