-- ===== src/Tracker/ReadyPromotion/Eligible.antt =====
-- Which issues the three lists of a decision hold, in terms of the dependencies, facts and issues.
use symphony_ts.Base.{
  ℕ, ◌≡◌, ◌⊎◌, refl, ap, subst, ◌∙◌, Bool, true, false, not, ◌&&◌, ◌||◌, List, [], ◌∷◌, map, all,
  none, some, arith, is_nonempty, ◌==◌, nat_eq, string_eq, Bool-cases, inl, inr, nat_beq_iff,
  Option-cases,
}
use symphony_ts.Base.Dict
use symphony_ts.Base.Dict.{Dict}
use symphony_ts.Base.Dict.Laws.{Entries, Entries-set}
use symphony_ts.Base.Sets.{contains}
use symphony_ts.Tracker.ReadyPromotion.{
  OperatorReleaseIssueReference, OperatorReleaseDependency, ReadyPromotionIssueFact,
  ReadyPromotionTrackerIssue, References, Sorted, note_downstream, note_all, note_unresolved,
  note_dependency, collect, no_references, sort_references, sort_one, is_eligible, fact_succeeded,
  all_prerequisites_succeeded, evaluate_ready_promotion, decision, eligible_set_computed,
  OperatorReleaseConfiguration, facts_from, tracked_from,
}
use symphony_ts.Tracker.ReadyPromotion.Maps.{is_listed, is_downstream, has-collect, all-collect}

abbrev pub numbers : List OperatorReleaseIssueReference → List ℕ
numbers references = map (λ reference. reference.issue_number) references

abbrev IsNamed : ℕ → OperatorReleaseIssueReference → Type 0
IsNamed n reference = reference.issue_number ≡ n

abbrev AreNamed : References → Type 0
AreNamed references = Entries IsNamed references.downstream_references

-- The issue is tracked and has the ready label.
abbrev pub labelled : Dict ℕ ReadyPromotionTrackerIssue → ℕ → Bool
labelled tracked n = elim (Dict.get tracked n) [ none ↦ false | some i ↦ i.has_ready_label ]

module _ (facts : Dict ℕ ReadyPromotionIssueFact)
    (tracked : Dict ℕ ReadyPromotionTrackerIssue) where
  note_all-AreNamed :
      (prerequisite : OperatorReleaseIssueReference) (references : References)
      (downstream : List OperatorReleaseIssueReference)
      → AreNamed references
      → AreNamed (note_all facts tracked prerequisite references downstream)
  unfolding note_all note_downstream
  note_all-AreNamed prerequisite references [] h = h
  note_all-AreNamed prerequisite references (d ∷ rest) h =
      note_all-AreNamed prerequisite (note_downstream facts tracked prerequisite references d) rest
        (Entries-set IsNamed references.downstream_references d.issue_number d h refl)

  note_dependency-AreNamed :
      (references : References) (dependency : OperatorReleaseDependency)
      → AreNamed references
      → AreNamed (note_dependency facts tracked references dependency)
  unfolding note_dependency note_unresolved
  note_dependency-AreNamed references dependency h =
      elim (Bool-cases (is_nonempty dependency.downstream)) [
        | inl e ↦ rw e (note_all-AreNamed dependency.prerequisite _ dependency.downstream h)
        | inr e ↦ rw e h
      ]

  collect-AreNamed :
      (references : References) (dependencies : List OperatorReleaseDependency)
      → AreNamed references
      → AreNamed (collect facts tracked references dependencies)
  unfolding collect
  collect-AreNamed references [] h = h
  collect-AreNamed references (d ∷ rest) h =
      collect-AreNamed (note_dependency facts tracked references d) rest
        (note_dependency-AreNamed references d h)

  module _ (references : References) where
    -- The issue is tracked and passes the test, or is tracked and does not.
    abbrev pub passes : ℕ → Bool
    passes n = elim (Dict.get tracked n) [
      | none ↦ false
      | some i ↦ is_eligible facts tracked references n i
    ]

    abbrev pub fails : ℕ → Bool
    fails n = elim (Dict.get tracked n) [
      | none ↦ false
      | some i ↦ not (is_eligible facts tracked references n i)
    ]

    -- The three lists, in terms of whether they are about the number.
    pub record AreSorted (m : Bool) (n : ℕ) (sorted : Sorted) : Type 0 where
      pub eligible : contains (numbers sorted.eligible) n ≡ m && passes n
      pub to_add : contains (numbers sorted.to_add) n ≡ m && (passes n && not (labelled tracked n))
      pub to_remove : contains (numbers sorted.to_remove) n ≡ m && (fails n && labelled tracked n)

    sort_one-AreSorted :
        (m : Bool) (k n : ℕ) (r : OperatorReleaseIssueReference) (rest : Sorted)
        → r.issue_number ≡ k
        → AreSorted m n rest
        → AreSorted
            (k == n || m)
            n
            (sort_one facts tracked references k r (Dict.get tracked k) rest)
    unfolding sort_one contains
    sort_one-AreSorted m k n r rest named sorted = elim (Bool-cases (k == n)) [
      | inl e ↦
          let same : k ≡ n = (nat_beq_iff k n).0 e in
          let own : r.issue_number ≡ n = named ∙ same in
          let e' : r.issue_number == n ≡ true = (nat_beq_iff r.issue_number n).1 own in
          let a = sorted.eligible in
          let b = sorted.to_add in
          let c = sorted.to_remove in
          rw same record {
            eligible = ground (arith, nat_beq_iff n n);
            to_add = ground (arith, nat_beq_iff n n);
            to_remove = ground (arith, nat_beq_iff n n);
          }
      | inr e ↦
          let e' : r.issue_number == n ≡ false = ground arith in
          let a = sorted.eligible in
          let b = sorted.to_add in
          let c = sorted.to_remove in
          record { eligible = ground arith; to_add = ground arith; to_remove = ground arith }
    ]

    has-cons :
        (k n : ℕ) (r : OperatorReleaseIssueReference) (m : Dict ℕ OperatorReleaseIssueReference)
        → k == n || Dict.has m n ≡ Dict.has ((k, r) ∷ m) n
    unfolding Dict.has Dict.get
    has-cons k n r m = ground arith

    sort_references-AreSorted :
        (m : Dict ℕ OperatorReleaseIssueReference) (n : ℕ)
        → Entries IsNamed m
        → AreSorted (Dict.has m n) n (sort_references facts tracked references m)
    unfolding sort_references contains Dict.has Dict.get
    sort_references-AreSorted [] n h = record { eligible = refl; to_add = refl; to_remove = refl }
    sort_references-AreSorted ((k, r) ∷ m) n (h, hs) =
        subst (λ b. AreSorted b n (sort_references facts tracked references ((k, r) ∷ m)))
          (has-cons k n r m)
          (sort_one-AreSorted (Dict.has m n) k n r (sort_references facts tracked references m) h
            (sort_references-AreSorted m n hs))

-- What a decision over the dependencies says of issue `n` by the facts and the tracked issues.
module _ (facts : Dict ℕ ReadyPromotionIssueFact) (tracked : Dict ℕ ReadyPromotionTrackerIssue)
    (dependencies : List OperatorReleaseDependency) where
  -- The issue is open and was never started, and every prerequisite of it has succeeded.
  abbrev pub may_start : ℕ → ReadyPromotionTrackerIssue → Bool
  may_start n issue =
      issue.state == "open"
      && (not (Dict.has facts n)
          && all
              (λ d.
                not (is_listed n d.downstream)
                || fact_succeeded (Dict.get facts d.prerequisite.issue_number))
              dependencies)

  is_eligible-may_start :
      (n : ℕ) (issue : ReadyPromotionTrackerIssue)
      → is_eligible facts tracked (collect facts tracked no_references dependencies) n issue
        ≡ may_start n issue
  unfolding is_eligible all_prerequisites_succeeded all Dict.get
  is_eligible-may_start n issue =
      ap (λ b. issue.state == "open" && (not (Dict.has facts n) && b))
        (all-collect facts tracked n
          (λ prerequisite. fact_succeeded (Dict.get facts prerequisite.issue_number)) no_references
          dependencies)

  -- The tests of the tracked issue: it may start; it may not; it has the label.
  abbrev pub starts : ℕ → Bool
  starts n = elim (Dict.get tracked n) [ none ↦ false | some i ↦ may_start n i ]

  abbrev pub waits : ℕ → Bool
  waits n = elim (Dict.get tracked n) [ none ↦ false | some i ↦ not (may_start n i) ]

  pub record Decides (n : ℕ) (sorted : Sorted) : Type 0 where
    pub eligible : contains (numbers sorted.eligible) n ≡ is_downstream dependencies n && starts n
    pub to_add :
        contains (numbers sorted.to_add) n
        ≡ is_downstream dependencies n && (starts n && not (labelled tracked n))
    pub to_remove :
        contains (numbers sorted.to_remove) n
        ≡ is_downstream dependencies n && (waits n && labelled tracked n)

  pub sort_references-Decides :
      (n : ℕ)
      → let references = collect facts tracked no_references dependencies in
        Decides n (sort_references facts tracked references references.downstream_references)
  unfolding Dict.has
  sort_references-Decides n =
      let references = collect facts tracked no_references dependencies in
      let sorted =
        sort_references-AreSorted facts tracked references references.downstream_references n
          (collect-AreNamed facts tracked no_references dependencies tt) in
      let a = sorted.eligible in
      let b = sorted.to_add in
      let c = sorted.to_remove in
      let found = has-collect facts tracked n no_references dependencies in
      elim (Option-cases (Dict.get tracked n)) [
        | inl e ↦ record {
          eligible = ground arith;
          to_add = ground arith;
          to_remove = ground arith;
        }
        | inr (issue, e) ↦
            let same = is_eligible-may_start n issue in
            record { eligible = ground arith; to_add = ground arith; to_remove = ground arith }
      ]

-- Where the eligible set is computed, an issue is among the eligible ones exactly when some
-- dependency has it downstream, it is tracked and open, no fact is known of it, and the prerequisite
-- of each dependency that has it downstream has a fact with the outcome succeeded. The label is
-- added to exactly the eligible issues without it, and taken from exactly the tracked downstream
-- issues that have it and are not eligible.
pub evaluate_ready_promotion-Decides :
    (configuration : OperatorReleaseConfiguration) (issue_facts : List ReadyPromotionIssueFact)
    (tracker_issues : List ReadyPromotionTrackerIssue) (n : ℕ)
    → (evaluate_ready_promotion configuration issue_facts tracker_issues).state
      ≡ eligible_set_computed
    → let d = evaluate_ready_promotion configuration issue_facts tracker_issues in
      Decides
        (facts_from [] issue_facts)
        (tracked_from [] tracker_issues)
        configuration.dependencies
        n
        (record {
          eligible = d.eligible_issues;
          to_add = d.add_ready_label_to;
          to_remove = d.remove_ready_label_from;
        })
unfolding evaluate_ready_promotion decision
evaluate_ready_promotion-Decides configuration issue_facts tracker_issues n computed =
    let facts = facts_from [] issue_facts in
    let tracked = tracked_from [] tracker_issues in
    let by_lists = sort_references-Decides facts tracked configuration.dependencies n in
    let a = by_lists.eligible in
    let b = by_lists.to_add in
    let c = by_lists.to_remove in
    record { eligible = ground arith; to_add = ground arith; to_remove = ground arith }

pub evaluate_ready_promotion_idle :
    (configuration : OperatorReleaseConfiguration) (issue_facts : List ReadyPromotionIssueFact)
    (tracker_issues : List ReadyPromotionTrackerIssue)
    → let d = evaluate_ready_promotion configuration issue_facts tracker_issues in
      (d.state ≡ eligible_set_computed)
      ⊎ ((d.add_ready_label_to ≡ []) × (d.remove_ready_label_from ≡ []))
unfolding evaluate_ready_promotion decision
evaluate_ready_promotion_idle configuration issue_facts tracker_issues = ground arith
