-- ===== src/Observability/OperatorReadyPromotion.antt =====
-- src/observability/operator-ready-promotion.ts: the ready labels of a release on GitHub. The issues
-- on GitHub are a parameter: what they are, a read of one, where an absent issue is a 404, and an
-- update of the labels of one. Which updates fail, with their message, is a parameter too; a read
-- that fails otherwise than by 404 rejects the whole call and is left out.
pub mod Store
pub mod Laws
pub mod Labels
use symphony_ts.Base.{
  ℕ, String, Bool, true, false, not, List, [], ◌∷◌, ◌++◌, map, filter, length, Option, none, some,
  if◌then◌else◌, is_nonempty, ◌==◌, nat_eq, string_eq,
}
use symphony_ts.Base.Dict
use symphony_ts.Base.Dict.{Dict}
use symphony_ts.Base.Sets.{contains, set_of}
use symphony_ts.Base.Text.{cat, join, show}
use symphony_ts.Domain.Issue.{RuntimeIssue}
use symphony_ts.Tracker.ReadyPromotion.{
  ReadyPromotionIssueFact, ReadyPromotionTrackerIssue, ReadyPromotionDecision,
  OperatorReleaseIssueReference, OperatorReleaseDependency, OperatorReleaseConfiguration,
  evaluate_ready_promotion,
}
use symphony_ts.Tracker.ReadyPromotion

pub data OperatorReadyPromotionState : Type 0 where
  unconfigured blocked_review_needed labels_synchronized sync_failed : OperatorReadyPromotionState

pub record OperatorReadyPromotionResult : Type 0 where
  pub state : OperatorReadyPromotionState
  pub summary : String
  pub promoted_at : String
  pub eligible_issues : List OperatorReleaseIssueReference
  pub ready_labels_added : List OperatorReleaseIssueReference
  pub ready_labels_removed : List OperatorReleaseIssueReference
  pub error : Option String

-- The issues on GitHub, as `getIssue` and `updateIssue` with new labels show and change them.
pub record GitHubIssues : Type 1 where
  pub Server : Type 0
  pub get_issue : Server → ℕ → Option RuntimeIssue
  pub update_issue : Server → ℕ → List String → Server

-- The snapshot of an issue: what the policy reads, and the labels.
pub record TrackerIssueSnapshot : Type 0 where
  pub tracker_issue : ReadyPromotionTrackerIssue
  pub labels : List String

unfoldable pub to_tracker_issue_snapshot : String → RuntimeIssue → TrackerIssueSnapshot
unfolding contains
to_tracker_issue_snapshot ready_label issue = record {
  tracker_issue = record {
    issue_number = issue.number;
    issue_identifier = some issue.identifier;
    title = some issue.title;
    state = issue.state;
    has_ready_label = contains issue.labels ready_label;
  };
  labels = issue.labels;
}

abbrev snapshot_or_none : String → Option RuntimeIssue → List TrackerIssueSnapshot
snapshot_or_none ready_label none = []
snapshot_or_none ready_label (some issue) = to_tracker_issue_snapshot ready_label issue ∷ []

-- `dependencies.flatMap((dependency) => dependency.downstream.map((issue) => issue.issueNumber))`
unfoldable pub downstream_numbers : List OperatorReleaseDependency → List ℕ
downstream_numbers [] = []
downstream_numbers (dependency ∷ rest) =
    map (λ issue. issue.issue_number) dependency.downstream ++ downstream_numbers rest

-- The issues that are there, of those asked for.
unfoldable pub available_tracker_issues :
    (gh : GitHubIssues) → String → gh.Server → List ℕ → List TrackerIssueSnapshot
unfolding to_tracker_issue_snapshot
available_tracker_issues gh ready_label store [] = []
available_tracker_issues gh ready_label store (n ∷ rest) =
    snapshot_or_none ready_label (gh.get_issue store n)
    ++ available_tracker_issues gh ready_label store rest

unfoldable pub snapshots_from :
    Dict ℕ TrackerIssueSnapshot → List TrackerIssueSnapshot → Dict ℕ TrackerIssueSnapshot
snapshots_from snapshots [] = snapshots
snapshots_from snapshots (issue ∷ rest) =
    snapshots_from (Dict.set snapshots issue.tracker_issue.issue_number issue) rest

unfoldable pub with_label : String → List String → List String
with_label ready_label labels = labels ++ ready_label ∷ []

unfoldable pub without_label : String → List String → List String
without_label ready_label labels = filter (λ label. not (label == ready_label)) labels

-- What a loop over references leaves: GitHub's issues, the references changed, the error that ended it.
pub record LabelRun (Server : Type 0) : Type 0 where
  pub store : Server
  pub changed : List OperatorReleaseIssueReference
  pub error : Option String

unfoldable pub format_synchronized_summary : ℕ → ℕ → ℕ → String
format_synchronized_summary eligible_count add_count remove_count = join " " (
    cat (
      "Ready promotion synchronized " ∷ show eligible_count ∷ " eligible downstream issue(s)." ∷ [])
    ∷ cat ("Added ready to " ∷ show add_count ∷ " issue(s)." ∷ [])
    ∷ cat ("Removed ready from " ∷ show remove_count ∷ " issue(s)." ∷ [])
    ∷ [])

unfoldable pub unchanged_result :
    OperatorReadyPromotionState → String → String → OperatorReadyPromotionResult
unchanged_result state summary promoted_at = record {
  state = state;
  summary = summary;
  promoted_at = promoted_at;
  eligible_issues = [];
  ready_labels_added = [];
  ready_labels_removed = [];
  error = none;
}

pub record Promotion (Server : Type 0) : Type 0 where
  pub result : OperatorReadyPromotionResult
  pub store : Server

module _ (gh : GitHubIssues) (update_failure : ℕ → Option String) where
  -- The two loops over references differ in the change of the labels.
  unfoldable pub label_loop :
      (List String → List String)
      → Dict ℕ TrackerIssueSnapshot
      → List OperatorReleaseIssueReference
      → gh.Server
      → LabelRun gh.Server
  label_loop change snapshots [] store = record { store = store; changed = []; error = none }
  label_loop change snapshots (issue ∷ rest) store = elim (Dict.get snapshots issue.issue_number) [
    | none ↦ label_loop change snapshots rest store
    | some snapshot ↦ elim (update_failure issue.issue_number) [
      | some message ↦ record { store = store; changed = []; error = some message }
      | none ↦
          let later =
            label_loop change snapshots rest
              (gh.update_issue store issue.issue_number (change snapshot.labels)) in
          record later { changed = issue ∷ later.changed }
    ]
  ]

  -- The end of the synchronisation, from the runs of the two loops.
  unfoldable pub synchronized :
      String
      → ReadyPromotionDecision
      → LabelRun gh.Server
      → LabelRun gh.Server
      → Option String
      → OperatorReadyPromotionResult
  unfolding format_synchronized_summary
  synchronized promoted_at decision added removed (some message) = record {
    state = sync_failed;
    summary = cat ("Ready promotion failed while synchronizing GitHub labels: " ∷ message ∷ []);
    promoted_at = promoted_at;
    eligible_issues = decision.eligible_issues;
    ready_labels_added = added.changed;
    ready_labels_removed = removed.changed;
    error = some message;
  }
  synchronized promoted_at decision added removed none = record {
    state = labels_synchronized;
    summary =
        format_synchronized_summary (length decision.eligible_issues) (length added.changed)
          (length removed.changed);
    promoted_at = promoted_at;
    eligible_issues = decision.eligible_issues;
    ready_labels_added = added.changed;
    ready_labels_removed = removed.changed;
    error = none;
  }

  -- The second loop, which a failure of the first skips.
  unfoldable pub remove_after :
      (List String → List String)
      → Dict ℕ TrackerIssueSnapshot
      → List OperatorReleaseIssueReference
      → LabelRun gh.Server
      → LabelRun gh.Server
  unfolding label_loop
  remove_after change snapshots references added = elim added.error [
    | some message ↦ record { store = added.store; changed = []; error = some message }
    | none ↦ label_loop change snapshots references added.store
  ]

  unfoldable pub sync_labels :
      String
      → String
      → ReadyPromotionDecision
      → List TrackerIssueSnapshot
      → gh.Server
      → Promotion gh.Server
  unfolding label_loop remove_after synchronized with_label without_label snapshots_from
  sync_labels ready_label promoted_at decision available store =
      let snapshots = snapshots_from [] available in
      let added = label_loop (with_label ready_label) snapshots decision.add_ready_label_to store in
      let removed =
        remove_after (without_label ready_label) snapshots decision.remove_ready_label_from added in
      record {
        result = synchronized promoted_at decision added removed removed.error;
        store = removed.store;
      }

  -- The three states of a decision.
  unfoldable pub apply_decision :
      String
      → String
      → ReadyPromotionDecision
      → List TrackerIssueSnapshot
      → gh.Server
      → Promotion gh.Server
  unfolding sync_labels unchanged_result
  apply_decision ready_label promoted_at decision available store = elim decision.state [
    | ReadyPromotion.unconfigured ↦ record {
      result = unchanged_result unconfigured decision.summary promoted_at;
      store = store;
    }
    | ReadyPromotion.blocked_review_needed ↦ record {
      result = unchanged_result blocked_review_needed decision.summary promoted_at;
      store = store;
    }
    | ReadyPromotion.eligible_set_computed ↦
        sync_labels ready_label promoted_at decision available store
  ]

  -- `isGithub` stands for the test of the tracker's kind.
  unfoldable pub create_promotion_result :
      Bool
      → String
      → OperatorReleaseConfiguration
      → List ReadyPromotionIssueFact
      → String
      → gh.Server
      → Promotion gh.Server
  unfolding apply_decision available_tracker_issues downstream_numbers set_of unchanged_result
  create_promotion_result is_github ready_label configuration issue_facts promoted_at store =
      let available =
        available_tracker_issues gh ready_label store
          (set_of (downstream_numbers configuration.dependencies)) in
      let decision =
        evaluate_ready_promotion configuration issue_facts
          (map (λ issue. issue.tracker_issue) available) in
      if not is_github
      then record {
        result =
            unchanged_result unconfigured
              "Ready promotion is only implemented for GitHub-backed workflows in this slice."
              promoted_at;
        store = store;
      }
      else if not (is_nonempty configuration.dependencies)
      then record {
        result =
            unchanged_result unconfigured
              "No release dependency metadata is configured for this operator instance."
              promoted_at;
        store = store;
      }
      else apply_decision ready_label promoted_at decision available store
