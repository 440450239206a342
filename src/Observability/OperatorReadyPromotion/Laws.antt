-- ===== src/Observability/OperatorReadyPromotion/Laws.antt =====
-- The ready labels on GitHub after a promotion, and a promotion after a promotion.
use symphony_ts.Base.{
  ℕ, ◌≡◌, refl, String, Bool, true, false, List, [], ◌∷◌, map, filter, Option, none, arith,
  if◌then◌else◌, nat_eq, string_eq, beq_refl, Bool-cases, Option-cases, inl, inr, is_nonempty,
}
use symphony_ts.Base.Dict
use symphony_ts.Base.Dict.{Dict}
use symphony_ts.Base.Sets.{contains, contains-append, set_of}
use symphony_ts.Domain.Issue.{RuntimeIssue}
use symphony_ts.Tracker.ReadyPromotion.{
  ReadyPromotionDecision, ReadyPromotionIssueFact, ReadyPromotionTrackerIssue,
  OperatorReleaseIssueReference, OperatorReleaseConfiguration, facts_from, tracked_from,
  evaluate_ready_promotion,
}
use symphony_ts.Tracker.ReadyPromotion
use symphony_ts.Tracker.ReadyPromotion.Maps.{is_downstream}
use symphony_ts.Tracker.ReadyPromotion.Eligible.{numbers, may_start}
use symphony_ts.Observability.OperatorReadyPromotion.{
  GitHubIssues, TrackerIssueSnapshot, to_tracker_issue_snapshot, available_tracker_issues,
  snapshots_from, downstream_numbers, label_loop, LabelRun, remove_after, with_label, without_label,
  sync_labels, apply_decision, create_promotion_result, Promotion, unchanged_result,
  labels_synchronized, synchronized,
}
use symphony_ts.Observability.OperatorReadyPromotion.Store.{
  option_map, IsDocumented, contains-asked, get-available, tracked-snapshots, changed_by, see,
  see-label_loop,
}

pub contains-with_label :
    (label : String) (labels : List String) → contains (with_label label labels) label ≡ true
unfolding with_label contains
contains-with_label label labels =
    ground (arith, contains-append labels (label ∷ []) label, beq_refl label)

pub contains-without_label :
    (label : String) (labels : List String) → contains (without_label label labels) label ≡ false
unfolding without_label contains filter
contains-without_label label [] = refl
contains-without_label label (x ∷ xs) = ground (arith, contains-without_label label xs)

module _ (ready_label : String) (configuration : OperatorReleaseConfiguration)
    (issue_facts : List ReadyPromotionIssueFact) where
  abbrev pub available : (gh : GitHubIssues) → gh.Server → List TrackerIssueSnapshot
  available gh store =
      available_tracker_issues gh ready_label store
        (set_of (downstream_numbers configuration.dependencies))

  abbrev pub tracked : (gh : GitHubIssues) → gh.Server → Dict ℕ ReadyPromotionTrackerIssue
  tracked gh store = tracked_from [] (map (λ s. s.tracker_issue) (available gh store))

  -- The label that issue `n` is to have: a downstream issue has it if it may start, and any other
  -- issue keeps what it has.
  abbrev pub is_due : ℕ → RuntimeIssue → Bool
  is_due n issue =
      if is_downstream configuration.dependencies n
      then may_start (facts_from [] issue_facts) [] configuration.dependencies n
          (to_tracker_issue_snapshot ready_label issue).tracker_issue
      else contains issue.labels ready_label

  module _ (gh : GitHubIssues) (documented : IsDocumented gh) (store : gh.Server) where
    pub get-snapshots :
        (n : ℕ)
        → Dict.get (snapshots_from [] (available gh store)) n ≡ (
            if is_downstream configuration.dependencies n
            then option_map (to_tracker_issue_snapshot ready_label) (gh.get_issue store n)
            else none)
    unfolding Dict.get
    get-snapshots n =
        let here =
          get-available gh documented ready_label store
            (set_of (downstream_numbers configuration.dependencies)) [] n in
        let asked = contains-asked configuration.dependencies n in
        elim (Option-cases (gh.get_issue store n)) [
          | inl e ↦ ground arith
          | inr (issue, e) ↦ ground arith
        ]

    pub get-tracked :
        (n : ℕ)
        → Dict.get (tracked gh store) n ≡ (
            if is_downstream configuration.dependencies n
            then option_map
                (λ issue. (to_tracker_issue_snapshot ready_label issue).tracker_issue)
                (gh.get_issue store n)
            else none)
    unfolding Dict.get
    get-tracked n =
        let here = tracked-snapshots (available gh store) [] [] (λ k. refl) n in
        let read = get-snapshots n in
        elim (Option-cases (gh.get_issue store n)) [
          | inl e ↦ ground arith
          | inr (issue, e) ↦ ground arith
        ]

module _ (gh : GitHubIssues) (documented : IsDocumented gh) (label : String)
    (update_failure : ℕ → Option String) (change undo : List String → List String)
    (snapshots : Dict ℕ TrackerIssueSnapshot) where
  -- The changes of labels of both loops, as one change of what is seen.
  abbrev pub both_changes : List ℕ → List ℕ → ℕ → Option (String × Bool) → Option (String × Bool)
  both_changes to_add to_remove n seen =
      let added =
        if contains to_add n then changed_by label change (Dict.get snapshots n) seen else seen in
      if contains to_remove n then changed_by label undo (Dict.get snapshots n) added else added

  pub see-remove_after :
      (to_add to_remove : List OperatorReleaseIssueReference) (store : gh.Server) (n : ℕ)
      → let added = label_loop gh update_failure change snapshots to_add store in
        (remove_after gh update_failure undo snapshots to_remove added).error ≡ none
        → see gh label (remove_after gh update_failure undo snapshots to_remove added).store n
          ≡ both_changes (numbers to_add) (numbers to_remove) n (see gh label store n)
  unfolding remove_after
  see-remove_after to_add to_remove store n fine =
      let added = label_loop gh update_failure change snapshots to_add store in
      let first =
        see-label_loop gh documented label update_failure change snapshots to_add store n in
      let second =
        see-label_loop gh documented label update_failure undo snapshots to_remove added.store n in
      elim (Option-cases added.error) [
        | inr (message, e) ↦ ground arith
        | inl e ↦ ground (arith, first, second)
      ]

module _ (gh : GitHubIssues) (update_failure : ℕ → Option String)
    (ready_label promoted_at : String) where
  abbrev pub removed_by :
      ReadyPromotionDecision → List TrackerIssueSnapshot → gh.Server → LabelRun gh.Server
  removed_by decision available store =
      let snapshots = snapshots_from [] available in
      remove_after gh update_failure (without_label ready_label) snapshots
        decision.remove_ready_label_from
        (label_loop gh update_failure (with_label ready_label) snapshots decision.add_ready_label_to
          store)

  -- What labels that are synchronised mean for the parts of the promotion.
  pub record IsSynced (decision : ReadyPromotionDecision) (available : List TrackerIssueSnapshot)
      (store after : gh.Server) : Type 0 where
    pub computed : decision.state ≡ ReadyPromotion.eligible_set_computed
    pub fine : (removed_by decision available store).error ≡ none
    pub stored : after ≡ (removed_by decision available store).store

  apply_decision-IsSynced :
      (decision : ReadyPromotionDecision) (available : List TrackerIssueSnapshot)
      (store : gh.Server)
      → (apply_decision gh update_failure ready_label promoted_at decision available
          store).result.state
        ≡ labels_synchronized
      → IsSynced decision available store
          (apply_decision gh update_failure ready_label promoted_at decision available store).store
  unfolding apply_decision sync_labels synchronized unchanged_result
  apply_decision-IsSynced decision available store done =
      elim (Option-cases (removed_by decision available store).error) [
        | inl e ↦ record { computed = ground arith; fine = e; stored = ground arith }
        | inr (message, e) ↦ record {
          computed = ground arith;
          fine = ground arith;
          stored = ground arith;
        }
      ]

  module _ (configuration : OperatorReleaseConfiguration)
      (issue_facts : List ReadyPromotionIssueFact) where
    abbrev pub decided : gh.Server → ReadyPromotionDecision
    decided store =
        evaluate_ready_promotion configuration issue_facts
          (map (λ s. s.tracker_issue) (available ready_label configuration issue_facts gh store))

    abbrev pub promote : Bool → gh.Server → Promotion gh.Server
    promote is_github store =
        create_promotion_result gh update_failure is_github ready_label configuration issue_facts
          promoted_at store

    pub promote-IsSynced :
        (is_github : Bool) (store : gh.Server)
        → (promote is_github store).result.state ≡ labels_synchronized
        → IsSynced
            (decided store)
            (available ready_label configuration issue_facts gh store)
            store
            (promote is_github store).store
    unfolding create_promotion_result unchanged_result
    promote-IsSynced false store done = ground arith
    promote-IsSynced true store done = elim (Bool-cases (is_nonempty configuration.dependencies)) [
      | inl e ↦ rw e (
          apply_decision-IsSynced (decided store)
            (available ready_label configuration issue_facts gh store) store (rw e at done))
      | inr e ↦ ground arith
    ]
