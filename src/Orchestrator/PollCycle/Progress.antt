-- ===== src/Orchestrator/PollCycle/Progress.antt =====
-- What the dispatch loop of a poll does round by round, and what ended tasks leave reserved.
use symphony_ts.Base.{
  ℕ, ◌+◌, ◌≤◌, ◌<◌, ◌≡◌, refl, ◌∙◌, ◌⊎◌, true, false, List, [], ◌∷◌, ◌++◌, arith, leb, length,
  nat_eq, All, Bool-cases, inl, inr, length-append, length-map, ap, sym, subst,
}
use native.Mathlib.Decide.{dec_lt}
use mathlib.Core.List.{append_assoc, map-append}
use symphony_ts.Base.Sets.{
  contains, IsUnique, IsUnique-append, contains-append, add, remove, remove-IsUnique,
}
use symphony_ts.Orchestrator.LocalDispatch.{
  LocalDispatchRuntimeState, has_reserved_local_dispatch, reserve_local_dispatch,
  note_background_dispatch_task, release_local_dispatch,
}
use symphony_ts.Orchestrator.DispatchQueue.{QueueEntry, entry_numbers}
use symphony_ts.Orchestrator.PollCycle.{dispatch_loop, start_dispatch_task, release_ended}

contains_last : (xs : List ℕ) (n : ℕ) → contains (xs ++ n ∷ []) n ≡ true
unfolding contains
contains_last xs n = ground (arith, contains-append xs (n ∷ []) n)

numbers_last :
    (before : List ℕ) (started : List QueueEntry) (reserved : List ℕ) (entry : QueueEntry)
    → reserved ≡ before ++ entry_numbers started
    → reserved ++ entry.issue.number ∷ [] ≡ before ++ entry_numbers (started ++ entry ∷ [])
numbers_last before started reserved entry a = simp (a, append_assoc, map-append)

module _ (task : QueueEntry → ℕ) where
  -- An issue that is not reserved is started and reserved.
  start_fresh :
      (entry : QueueEntry) (state : LocalDispatchRuntimeState)
      → has_reserved_local_dispatch state entry.issue.number ≡ false
      → ((start_dispatch_task task entry state).0 ≡ true)
        × ((start_dispatch_task task entry state).1.reserved_issue_numbers
            ≡ state.reserved_issue_numbers ++ entry.issue.number ∷ [])
  unfolding start_dispatch_task reserve_local_dispatch has_reserved_local_dispatch add
      note_background_dispatch_task
  start_fresh entry state h = rw h (refl, refl)

  -- What the loop has done, from the reservations `before` all of it and `at` its current round.
  pub record Progress (before at : List ℕ) (slots : ℕ) (queue : List QueueEntry)
      (result : List QueueEntry × LocalDispatchRuntimeState) : Type 0 where
    pub added : result.1.reserved_issue_numbers ≡ before ++ entry_numbers result.0
    pub unique : IsUnique result.1.reserved_issue_numbers
    pub within : length result.0 ≤ slots
    pub kept : (n : ℕ) → contains at n ≡ true → contains result.1.reserved_issue_numbers n ≡ true
    pub served :
        (length result.0 < slots)
        → All (λ entry. contains result.1.reserved_issue_numbers entry.issue.number ≡ true) queue

  pub Progress-count :
      {before at : List ℕ} {slots : ℕ} {queue : List QueueEntry}
      {result : List QueueEntry × LocalDispatchRuntimeState}
      → Progress before at slots queue result
      → length result.1.reserved_issue_numbers ≡ length before + length result.0
  Progress-count {before} {result} p =
      ap length p.added
      ∙ length-append before (entry_numbers result.0)
      ∙ ap (λ k. length before + k) (length-map result.0 (λ entry. entry.issue.number))

  -- All slots are used, or every issue of the queue is reserved.
  pub Progress-served :
      {before at : List ℕ} {slots : ℕ} {queue : List QueueEntry}
      {result : List QueueEntry × LocalDispatchRuntimeState}
      → Progress before at slots queue result
      → (length result.0 ≡ slots)
        ⊎ All (λ entry. contains result.1.reserved_issue_numbers entry.issue.number ≡ true) queue
  Progress-served {slots} {result} p = elim (dec_lt (length result.0) slots) [
    | yes lt ↦ inr (p.served lt)
    | no ge ↦ inl (omega (arith, p.within))
  ]

  Progress-stop :
      (before : List ℕ) (slots : ℕ) (queue started : List QueueEntry)
      (state : LocalDispatchRuntimeState)
      → state.reserved_issue_numbers ≡ before ++ entry_numbers started
      → IsUnique state.reserved_issue_numbers
      → length started ≤ slots
      → ((length started < slots) → queue ≡ [])
      → Progress before state.reserved_issue_numbers slots queue (started, state)
  Progress-stop before slots queue started state a u w none_left = record {
    added = a;
    unique = u;
    within = w;
    kept = λ n h. h;
    served = λ lt. rw (none_left lt) tt;
  }

  Progress-cons :
      {before at at' : List ℕ} {slots : ℕ} {queue : List QueueEntry}
      {result : List QueueEntry × LocalDispatchRuntimeState} (entry : QueueEntry)
      → ((n : ℕ) → contains at n ≡ true → contains at' n ≡ true)
      → contains at' entry.issue.number ≡ true
      → Progress before at' slots queue result
      → Progress before at slots (entry ∷ queue) result
  Progress-cons entry grows here p = record {
    added = p.added;
    unique = p.unique;
    within = p.within;
    kept = λ n h. p.kept n (grows n h);
    served = λ lt. (p.kept entry.issue.number here, p.served lt);
  }

  pub dispatch_loop-Progress :
      (before : List ℕ) (slots : ℕ) (queue started : List QueueEntry)
      (state : LocalDispatchRuntimeState)
      → state.reserved_issue_numbers ≡ before ++ entry_numbers started
      → IsUnique state.reserved_issue_numbers
      → length started ≤ slots
      → Progress before state.reserved_issue_numbers slots queue
          (dispatch_loop task slots queue started state)
  unfolding dispatch_loop
  dispatch_loop-Progress before slots [] started state a u w =
      Progress-stop before slots [] started state a u w (λ lt. refl)
  dispatch_loop-Progress before slots (entry ∷ queue) started state a u w =
      elim (Bool-cases (leb slots (length started))) [
        | inl full ↦ rw full (
            Progress-stop before slots (entry ∷ queue) started state a u w
              (λ lt. absurd (ground arith)))
        | inr room ↦ elim (Bool-cases (has_reserved_local_dispatch state entry.issue.number)) [
          | inl taken ↦
              rw (room, taken)
                (Progress-cons entry (λ n h. h) (unfold has_reserved_local_dispatch in taken)
                  (dispatch_loop-Progress before slots queue started state a u w))
          | inr fresh ↦
              let (done, after) = start_fresh entry state fresh in
              let here : contains state.reserved_issue_numbers entry.issue.number ≡ false =
                unfold has_reserved_local_dispatch in fresh in
              rw (room, fresh, done)
                (Progress-cons entry
                  (λ n h.
                    ap (λ l. contains l n) after
                    ∙ ground (
                      arith,
                      contains-append state.reserved_issue_numbers (entry.issue.number ∷ []) n,
                      h,
                    ))
                  (ap (λ l. contains l entry.issue.number) after
                    ∙ contains_last state.reserved_issue_numbers entry.issue.number)
                  (dispatch_loop-Progress before slots queue (started ++ entry ∷ [])
                    (start_dispatch_task task entry state).1
                    (after ∙ numbers_last before started state.reserved_issue_numbers entry a)
                    (subst IsUnique (sym after)
                      (IsUnique-append state.reserved_issue_numbers entry.issue.number u here))
                    (ground (arith, length-append started (entry ∷ [])))))
        ]
      ]

length-remove : (xs : List ℕ) (n : ℕ) → length (remove xs n) ≤ length xs
unfolding remove
length-remove [] n = omega arith
length-remove (x ∷ xs) n = let rest = length-remove xs n in ground arith

pub release_ended-IsUnique :
    (state : LocalDispatchRuntimeState) (ended : List ℕ)
    → IsUnique state.reserved_issue_numbers
    → IsUnique (release_ended state ended).reserved_issue_numbers
unfolding release_ended release_local_dispatch
release_ended-IsUnique state [] u = u
release_ended-IsUnique state (n ∷ ended) u =
    release_ended-IsUnique (release_local_dispatch state n) ended
      (remove-IsUnique state.reserved_issue_numbers n u)

pub length-release_ended :
    (state : LocalDispatchRuntimeState) (ended : List ℕ)
    → length (release_ended state ended).reserved_issue_numbers
      ≤ length state.reserved_issue_numbers
unfolding release_ended release_local_dispatch
length-release_ended state [] = omega arith
length-release_ended state (n ∷ ended) = omega (
  arith,
  length-release_ended (release_local_dispatch state n) ended,
  length-remove state.reserved_issue_numbers n,
)
