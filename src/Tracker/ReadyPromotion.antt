-- ===== src/Tracker/ReadyPromotion.antt =====
-- src/tracker/ready-promotion-policy.ts: which issues of a release may get the ready label; with the
-- types of src/observability/operator-release-state.ts and issue-artifacts.ts that it reads.
pub mod Maps
pub mod Eligible
use symphony_ts.Base.{
  ℕ, String, Bool, true, false, not, ◌&&◌, List, [], ◌∷◌, ◌++◌, map, all, length, Option, none,
  some, if◌then◌else◌, is_some, or_else, is_nonempty, ◌==◌, nat_eq, string_eq,
}
use symphony_ts.Base.Dict
use symphony_ts.Base.Dict.{Dict}
use symphony_ts.Base.Sets.{contains, add}
use symphony_ts.Base.Text.{cat, show}

pub data IssueArtifactOutcome : Type 0 where
  claimed running shutdown_terminated shutdown_forced attempt_failed : IssueArtifactOutcome
  awaiting_plan_review merged awaiting_human_review awaiting_system_checks : IssueArtifactOutcome
  degraded_review_infrastructure awaiting_landing_command awaiting_landing : IssueArtifactOutcome
  rework_required retry_scheduled succeeded failed : IssueArtifactOutcome

pub record ReadyPromotionIssueFact : Type 0 where
  pub issue_number : ℕ
  pub issue_identifier : String
  pub title : String
  pub current_outcome : IssueArtifactOutcome

pub record ReadyPromotionTrackerIssue : Type 0 where
  pub issue_number : ℕ
  pub issue_identifier : Option String
  pub title : Option String
  pub state : String
  pub has_ready_label : Bool

pub record OperatorReleaseIssueReference : Type 0 where
  pub issue_number : ℕ
  pub issue_identifier : Option String
  pub title : Option String

pub record OperatorReleaseDependency : Type 0 where
  pub prerequisite : OperatorReleaseIssueReference
  pub downstream : List OperatorReleaseIssueReference

pub record OperatorReleaseConfiguration : Type 0 where
  pub release_id : Option String
  pub dependencies : List OperatorReleaseDependency

pub data PromotionState : Type 0 where
  unconfigured blocked_review_needed eligible_set_computed : PromotionState

pub record ReadyPromotionDecision : Type 0 where
  pub state : PromotionState
  pub summary : String
  pub unresolved_references : List OperatorReleaseIssueReference
  pub eligible_issues : List OperatorReleaseIssueReference
  pub add_ready_label_to : List OperatorReleaseIssueReference
  pub remove_ready_label_from : List OperatorReleaseIssueReference

-- `new Map(issues.map((issue) => [issue.issueNumber, issue]))`
unfoldable pub facts_from :
    Dict ℕ ReadyPromotionIssueFact → List ReadyPromotionIssueFact → Dict ℕ ReadyPromotionIssueFact
facts_from facts [] = facts
facts_from facts (fact ∷ rest) = facts_from (Dict.set facts fact.issue_number fact) rest

unfoldable pub tracked_from :
    Dict ℕ ReadyPromotionTrackerIssue
    → List ReadyPromotionTrackerIssue
    → Dict ℕ ReadyPromotionTrackerIssue
tracked_from tracked [] = tracked
tracked_from tracked (issue ∷ rest) = tracked_from (Dict.set tracked issue.issue_number issue) rest

-- The two maps and the list that the loop over the dependencies fills.
pub record References : Type 0 where
  pub prerequisites_by_downstream : Dict ℕ (List OperatorReleaseIssueReference)
  pub downstream_references : Dict ℕ OperatorReleaseIssueReference
  pub unresolved : List OperatorReleaseIssueReference

abbrev is_succeeded : IssueArtifactOutcome → Bool
is_succeeded succeeded = true
is_succeeded _ = false

abbrev fact_succeeded : Option ReadyPromotionIssueFact → Bool
fact_succeeded none = false
fact_succeeded (some fact) = is_succeeded fact.current_outcome

-- The three lists that the loop over the downstream references fills.
pub record Sorted : Type 0 where
  pub eligible : List OperatorReleaseIssueReference
  pub to_add : List OperatorReleaseIssueReference
  pub to_remove : List OperatorReleaseIssueReference

module _ (facts : Dict ℕ ReadyPromotionIssueFact)
    (tracked : Dict ℕ ReadyPromotionTrackerIssue) where
  -- The body of the inner loop, and the loop.
  unfoldable pub note_downstream :
      OperatorReleaseIssueReference → References → OperatorReleaseIssueReference → References
  note_downstream prerequisite references downstream =
      let n = downstream.issue_number in
      let prerequisites = or_else (Dict.get references.prerequisites_by_downstream n) [] in
      record {
        prerequisites_by_downstream =
            Dict.set references.prerequisites_by_downstream n (prerequisites ++ prerequisite ∷ []);
        downstream_references = Dict.set references.downstream_references n downstream;
        unresolved =
            if Dict.has tracked n
            then references.unresolved
            else references.unresolved ++ downstream ∷ [];
      }

  unfoldable pub note_all :
      OperatorReleaseIssueReference → References → List OperatorReleaseIssueReference → References
  unfolding note_downstream
  note_all prerequisite references [] = references
  note_all prerequisite references (downstream ∷ rest) =
      note_all prerequisite (note_downstream prerequisite references downstream) rest

  unfoldable pub note_unresolved : References → OperatorReleaseIssueReference → Bool → References
  note_unresolved references reference is_known = record references {
    unresolved =
        if is_known then references.unresolved else references.unresolved ++ reference ∷ [];
  }

  -- The body of the outer loop, and the loop.
  unfoldable pub note_dependency : References → OperatorReleaseDependency → References
  unfolding note_all note_unresolved
  note_dependency references dependency =
      let prerequisite = dependency.prerequisite in
      if not (is_nonempty dependency.downstream)
      then note_unresolved references prerequisite false
      else note_all prerequisite
          (note_unresolved references prerequisite (Dict.has facts prerequisite.issue_number))
          dependency.downstream

  unfoldable pub collect : References → List OperatorReleaseDependency → References
  unfolding note_dependency
  collect references [] = references
  collect references (dependency ∷ rest) = collect (note_dependency references dependency) rest

  unfoldable pub all_prerequisites_succeeded : References → ℕ → Bool
  all_prerequisites_succeeded references n =
      all (λ prerequisite. fact_succeeded (Dict.get facts prerequisite.issue_number))
        (or_else (Dict.get references.prerequisites_by_downstream n) [])

  unfoldable pub is_eligible : References → ℕ → ReadyPromotionTrackerIssue → Bool
  unfolding all_prerequisites_succeeded
  is_eligible references n issue =
      issue.state == "open" && (not (Dict.has facts n) && all_prerequisites_succeeded references n)

  -- One downstream reference, with the lists of the rest.
  unfoldable pub sort_one :
      References
      → ℕ
      → OperatorReleaseIssueReference
      → Option ReadyPromotionTrackerIssue
      → Sorted
      → Sorted
  unfolding is_eligible
  sort_one references n reference none rest = rest
  sort_one references n reference (some issue) rest =
      if is_eligible references n issue
      then record rest {
        eligible = reference ∷ rest.eligible;
        to_add = if issue.has_ready_label then rest.to_add else reference ∷ rest.to_add;
      }
      else record rest {
        to_remove = if issue.has_ready_label then reference ∷ rest.to_remove else rest.to_remove;
      }

  unfoldable pub sort_references : References → List (ℕ × OperatorReleaseIssueReference) → Sorted
  unfolding sort_one
  sort_references references [] = record { eligible = []; to_add = []; to_remove = [] }
  sort_references references ((n, reference) ∷ rest) =
      sort_one references n reference (Dict.get tracked n) (sort_references references rest)

unfoldable pub dedupe_from :
    List ℕ → List OperatorReleaseIssueReference → List OperatorReleaseIssueReference
unfolding contains add
dedupe_from seen [] = []
dedupe_from seen (reference ∷ rest) =
    let later = dedupe_from (add seen reference.issue_number) rest in
    if contains seen reference.issue_number then later else reference ∷ later

unfoldable pub dedupe_issue_references :
    List OperatorReleaseIssueReference → List OperatorReleaseIssueReference
unfolding dedupe_from
dedupe_issue_references references = dedupe_from [] references

abbrev format_release_label : Option String → String
format_release_label none = "Configured release"
format_release_label (some release_id) = cat ("Release " ∷ release_id ∷ [])

unfoldable pub decision :
    PromotionState → String → List OperatorReleaseIssueReference → Sorted → ReadyPromotionDecision
decision state summary unresolved sorted = record {
  state = state;
  summary = summary;
  unresolved_references = unresolved;
  eligible_issues = sorted.eligible;
  add_ready_label_to = sorted.to_add;
  remove_ready_label_from = sorted.to_remove;
}

abbrev none_sorted : Sorted
none_sorted = record { eligible = []; to_add = []; to_remove = [] }

abbrev pub no_references : References
no_references = record {
  prerequisites_by_downstream = [];
  downstream_references = [];
  unresolved = [];
}

unfoldable pub evaluate_ready_promotion :
    OperatorReleaseConfiguration
    → List ReadyPromotionIssueFact
    → List ReadyPromotionTrackerIssue
    → ReadyPromotionDecision
unfolding facts_from tracked_from collect sort_references dedupe_issue_references decision
evaluate_ready_promotion configuration issue_facts tracker_issues =
    let release_label = format_release_label configuration.release_id in
    let facts = facts_from [] issue_facts in
    let tracked = tracked_from [] tracker_issues in
    let references = collect facts tracked no_references configuration.dependencies in
    let unresolved = dedupe_issue_references references.unresolved in
    let sorted = sort_references facts tracked references references.downstream_references in
    if not (is_nonempty configuration.dependencies)
    then decision unconfigured
        "No release dependency metadata is configured for this operator instance." [] none_sorted
    else if is_nonempty unresolved
    then decision blocked_review_needed
        (cat (
          release_label
          ∷ " ready promotion needs review before label synchronization: dependency metadata is incomplete or required issue facts are unavailable."
          ∷ []))
        unresolved none_sorted
    else decision eligible_set_computed
        (cat (
          release_label
          ∷ " ready promotion computed "
          ∷ show (length sorted.eligible)
          ∷ " eligible downstream issue(s)."
          ∷ []))
        [] sorted
