-- ===== src/Observability/OperatorReadyPromotion/Labels.antt =====
-- The two theorems on a promotion: what labels it leaves, and that a second one changes nothing.
use symphony_ts.Base.{
  ℕ, ◌≡◌, refl, ap, ◌∙◌, String, Bool, true, false, List, [], ◌∷◌, map, Option, none, some, arith,
  beq_refl, is_nonempty, Bool-cases, Option-cases, inl, inr, nat_eq, string_eq,
}
use symphony_ts.Base.Sets.{contains}
use symphony_ts.Domain.Issue.{RuntimeIssue}
use symphony_ts.Tracker.ReadyPromotion.{
  OperatorReleaseIssueReference, ReadyPromotionDecision, ReadyPromotionIssueFact,
  OperatorReleaseConfiguration, eligible_set_computed,
}
use symphony_ts.Tracker.ReadyPromotion.Eligible.{
  numbers, evaluate_ready_promotion_idle, evaluate_ready_promotion-Decides,
}
use symphony_ts.Observability.OperatorReadyPromotion.{
  apply_decision, sync_labels, unchanged_result, synchronized, remove_after, label_loop,
  GitHubIssues, TrackerIssueSnapshot, to_tracker_issue_snapshot, snapshots_from, with_label,
  without_label, labels_synchronized, create_promotion_result,
}
use symphony_ts.Observability.OperatorReadyPromotion.Store.{option_map, IsDocumented, see}
use symphony_ts.Observability.OperatorReadyPromotion.Laws.{
  available, is_due, decided, promote, promote-IsSynced, see-remove_after, get-snapshots,
  get-tracked, contains-with_label, contains-without_label,
}

no_numbers :
    (references : List OperatorReleaseIssueReference)
    → ((n : ℕ) → contains (numbers references) n ≡ false)
    → references ≡ []
unfolding contains
no_numbers [] h = refl
no_numbers (r ∷ rest) h = let here = h r.issue_number in ground (arith, beq_refl r.issue_number)

-- A promotion by a decision with no label to change.
apply_decision_idle :
    (gh : GitHubIssues) (update_failure : ℕ → Option String) (ready_label promoted_at : String)
    (decision : ReadyPromotionDecision) (xs : List TrackerIssueSnapshot) (store : gh.Server)
    → decision.add_ready_label_to ≡ []
    → decision.remove_ready_label_from ≡ []
    → let p = apply_decision gh update_failure ready_label promoted_at decision xs store in
      (p.store ≡ store)
      × ((p.result.ready_labels_added ≡ []) × (p.result.ready_labels_removed ≡ []))
unfolding apply_decision sync_labels unchanged_result synchronized remove_after label_loop
apply_decision_idle gh update_failure ready_label promoted_at decision xs store a r =
    (ground arith, (ground arith, ground arith))

promote_idle :
    (gh : GitHubIssues) (update_failure : ℕ → Option String) (ready_label promoted_at : String)
    (configuration : OperatorReleaseConfiguration) (issue_facts : List ReadyPromotionIssueFact)
    (is_github : Bool) (store : gh.Server)
    → let d = decided gh update_failure ready_label promoted_at configuration issue_facts store in
      (d.add_ready_label_to ≡ []) × (d.remove_ready_label_from ≡ [])
      → let p =
          promote gh update_failure ready_label promoted_at configuration issue_facts is_github
            store in
        (p.store ≡ store)
        × ((p.result.ready_labels_added ≡ []) × (p.result.ready_labels_removed ≡ []))
unfolding create_promotion_result unchanged_result
promote_idle gh update_failure ready_label promoted_at configuration issue_facts false store h =
    (refl, (refl, refl))
promote_idle gh update_failure ready_label promoted_at configuration issue_facts true store (a, r) =
    elim (Bool-cases (is_nonempty configuration.dependencies)) [
      | inl e ↦ rw e (
          apply_decision_idle gh update_failure ready_label promoted_at
            (decided gh update_failure ready_label promoted_at configuration issue_facts store)
            (available ready_label configuration issue_facts gh store) store a r)
      | inr e ↦ rw e (refl, (refl, refl))
    ]

module _ (gh : GitHubIssues) (documented : IsDocumented gh) (update_failure : ℕ → Option String)
    (ready_label promoted_at : String) (configuration : OperatorReleaseConfiguration)
    (issue_facts : List ReadyPromotionIssueFact) (is_github : Bool) (store : gh.Server) where
  abbrev after : gh.Server
  after =
      (promote gh update_failure ready_label promoted_at configuration issue_facts is_github
        store).store

  -- What a promotion that synchronised the labels leaves to be seen of an issue.
  abbrev due : ℕ → Option RuntimeIssue → Option (String × Bool)
  due n none = none
  due n (some issue) = some (issue.state, is_due ready_label configuration issue_facts n issue)

  see-promote :
      (promote gh update_failure ready_label promoted_at configuration issue_facts is_github
          store).result.state
        ≡ labels_synchronized
      → (n : ℕ) → see gh ready_label after n ≡ due n (gh.get_issue store n)
  unfolding to_tracker_issue_snapshot
  see-promote done n =
      let synced =
        promote-IsSynced gh update_failure ready_label promoted_at configuration issue_facts
          is_github store done in
      let d = decided gh update_failure ready_label promoted_at configuration issue_facts store in
      let snapshots =
        snapshots_from [] (available ready_label configuration issue_facts gh store) in
      let decides =
        evaluate_ready_promotion-Decides configuration issue_facts
          (map (λ s. s.tracker_issue) (available ready_label configuration issue_facts gh store)) n
          synced.computed in
      let a = decides.to_add in
      let r = decides.to_remove in
      let snap = get-snapshots ready_label configuration issue_facts gh documented store n in
      let track = get-tracked ready_label configuration issue_facts gh documented store n in
      let changed =
        ap (λ m. see gh ready_label m n) synced.stored
        ∙ see-remove_after gh documented ready_label update_failure (with_label ready_label)
            (without_label ready_label) snapshots d.add_ready_label_to d.remove_ready_label_from
            store n synced.fine in
      elim (Option-cases (gh.get_issue store n)) [
        | inl e ↦ ground arith
        | inr (issue, e) ↦
            let gained = contains-with_label ready_label issue.labels in
            let lost = contains-without_label ready_label issue.labels in ground arith
      ]

  -- After a promotion that synchronised the labels, each issue on GitHub that some dependency has
  -- downstream has the ready label exactly when it is open, no fact is known of it, and the
  -- prerequisites of all dependencies that have it downstream have succeeded; every other issue has
  -- it exactly when it had it before. No issue has changed its state. GitHub is any server that
  -- reads and changes issues as documented.
  pub labels-promote :
      (promote gh update_failure ready_label promoted_at configuration issue_facts is_github
          store).result.state
        ≡ labels_synchronized
      → (n : ℕ)
      → (option_map (λ issue. contains issue.labels ready_label) (gh.get_issue after n)
          ≡ option_map (is_due ready_label configuration issue_facts n) (gh.get_issue store n))
        × (option_map (λ issue. issue.state) (gh.get_issue after n)
            ≡ option_map (λ issue. issue.state) (gh.get_issue store n))
  labels-promote done n =
      let seen = see-promote done n in
      elim (Option-cases (gh.get_issue after n)) [
        | inl e ↦ elim (Option-cases (gh.get_issue store n)) [
          | inl o ↦ (ground arith, ground arith)
          | inr (before, o) ↦ (ground arith, ground arith)
        ]
        | inr (issue, e) ↦ elim (Option-cases (gh.get_issue store n)) [
          | inl o ↦ (ground arith, ground arith)
          | inr (before, o) ↦ (ground arith, ground arith)
        ]
      ]

  -- Nothing is left to add or to remove.
  settled :
      (promote gh update_failure ready_label promoted_at configuration issue_facts is_github
          store).result.state
        ≡ labels_synchronized
      → let d = decided gh update_failure ready_label promoted_at configuration issue_facts after in
        d.state ≡ eligible_set_computed
        → (n : ℕ)
        → (contains (numbers d.add_ready_label_to) n ≡ false)
          × (contains (numbers d.remove_ready_label_from) n ≡ false)
  unfolding to_tracker_issue_snapshot
  settled done computed n =
      let decides =
        evaluate_ready_promotion-Decides configuration issue_facts
          (map (λ s. s.tracker_issue) (available ready_label configuration issue_facts gh after)) n
          computed in
      let a = decides.to_add in
      let r = decides.to_remove in
      let track = get-tracked ready_label configuration issue_facts gh documented after n in
      let (has, same) = labels-promote done n in
      elim (Option-cases (gh.get_issue after n)) [
        | inl e ↦ (ground arith, ground arith)
        | inr (issue, e) ↦ elim (Option-cases (gh.get_issue store n)) [
          | inl o ↦ (ground arith, ground arith)
          | inr (before, o) ↦
              let kept : issue.state ≡ before.state = ground arith in (ground arith, ground arith)
        ]
      ]

  -- A second promotion, with the same configuration and facts, right after one that synchronised
  -- the labels adds no label, removes none, and changes nothing on GitHub, which is any server that
  -- reads and changes issues as documented; whether its own updates would fail, and when it runs,
  -- does not matter.
  pub promote-promote :
      (update_failure' : ℕ → Option String) (promoted_at' : String)
      → (promote gh update_failure ready_label promoted_at configuration issue_facts is_github
          store).result.state
        ≡ labels_synchronized
      → let first =
          (promote gh update_failure ready_label promoted_at configuration issue_facts is_github
            store).store in
        let second =
          promote gh update_failure' ready_label promoted_at' configuration issue_facts is_github
            first in
        (second.store ≡ first)
        × ((second.result.ready_labels_added ≡ []) × (second.result.ready_labels_removed ≡ []))
  promote-promote update_failure' promoted_at' done =
      promote_idle gh update_failure' ready_label promoted_at' configuration issue_facts is_github
        after
        (elim (evaluate_ready_promotion_idle configuration issue_facts
          (map (λ s. s.tracker_issue) (available ready_label configuration issue_facts gh after))) [
            | inl e ↦
                (no_numbers _ (λ n. (settled done e n).0), no_numbers _ (λ n. (settled done e n).1))
            | inr e ↦ e
          ])
