-- ===== src/Tests/Promotions.antt =====
-- A release of two issues, of which the first is done and the second waits for it.
use symphony_ts.Base.{
  ℕ, ◌≡◌, refl, ap, ◌∙◌, ◌==◌, Option-cases, inl, inr, arith, String, true, false, List, [], ◌∷◌,
  Option, none, some, nat_eq, string_eq, all,
}
use symphony_ts.Base.Dict.{Dict}
use symphony_ts.Base.Dict
use symphony_ts.Base.Dict.Laws.{get-set, get-set_same}
use symphony_ts.Base.Sets.{contains}
use symphony_ts.Domain.Issue.{RuntimeIssue}
use symphony_ts.Tracker.ReadyPromotion.{
  OperatorReleaseConfiguration, OperatorReleaseIssueReference, ReadyPromotionIssueFact, succeeded,
  ReadyPromotionTrackerIssue, evaluate_ready_promotion, eligible_set_computed, facts_from,
  tracked_from,
}
use symphony_ts.Tracker.ReadyPromotion.Eligible.{Decides, evaluate_ready_promotion-Decides}
use symphony_ts.Observability.OperatorReadyPromotion.{
  GitHubIssues, labels_synchronized, create_promotion_result,
}
use symphony_ts.Observability.OperatorReadyPromotion.Store.{option_map, IsDocumented}
use symphony_ts.Observability.OperatorReadyPromotion.Laws.{promote, is_due}
use symphony_ts.Observability.OperatorReadyPromotion.Labels.{labels-promote, promote-promote}

abbrev reference : ℕ → OperatorReleaseIssueReference
reference n = record { issue_number = n; issue_identifier = none; title = none }

abbrev release : OperatorReleaseConfiguration
release = record {
  release_id = some "r1";
  dependencies = record { prerequisite = reference 1; downstream = reference 2 ∷ [] } ∷ [];
}

abbrev facts : List ReadyPromotionIssueFact
facts =
    record {
      issue_number = 1;
      issue_identifier = "#1";
      title = "First";
      current_outcome = succeeded;
    }
    ∷ []

abbrev issue : ℕ → List String → RuntimeIssue
issue n labels = record {
  id = "i";
  identifier = "#2";
  number = n;
  title = "Second";
  description = "";
  labels = labels;
  state = "open";
  url = "";
  created_at = "";
  updated_at = "";
  closed_at = none;
  queue_priority = none;
  blocked_by = [];
}

abbrev on_git_hub : Dict ℕ RuntimeIssue
on_git_hub = (2, issue 2 ("bug" ∷ [])) ∷ (3, issue 3 ("ready" ∷ [])) ∷ []

-- A server with a map of issues, which notes the time of an update.
abbrev numbered : ℕ → Option RuntimeIssue → Option RuntimeIssue
numbered n none = none
numbered n (some i) = some (record i { number = n })

abbrev relabel : Dict ℕ RuntimeIssue → ℕ → List String → Option RuntimeIssue → Dict ℕ RuntimeIssue
relabel store n labels none = store
relabel store n labels (some i) =
    Dict.set store n (record i { labels = labels; updated_at = "later" })

abbrev server : GitHubIssues
server = record {
  Server = Dict ℕ RuntimeIssue;
  get_issue = λ store n. numbered n (Dict.get store n);
  update_issue = λ store n labels. relabel store n labels (Dict.get store n);
}

has_number :
    (n : ℕ) (found : Option RuntimeIssue) {i : RuntimeIssue}
    → numbered n found ≡ some i
    → i.number ≡ n
has_number n none e = cc
has_number n (some j) {i} e = ground arith

stays_absent :
    (store : Dict ℕ RuntimeIssue) (n : ℕ) (labels : List String)
    → numbered n (Dict.get store n) ≡ none
    → numbered n (Dict.get (relabel store n labels (Dict.get store n)) n) ≡ none
stays_absent store n labels e = elim (Option-cases (Dict.get store n)) [
  | inl o ↦ rw o e
  | inr (i, o) ↦ ground arith
]

is_edited :
    (store : Dict ℕ RuntimeIssue) (n : ℕ) (labels : List String) {i : RuntimeIssue}
    → numbered n (Dict.get store n) ≡ some i
    → (after : RuntimeIssue) × ((numbered n (Dict.get (relabel store n labels (Dict.get store n)) n)
          ≡ some after)
        × ((after.state ≡ i.state)
            × ((label : String) → contains after.labels label ≡ contains labels label)))
is_edited store n labels {i} e = elim (Option-cases (Dict.get store n)) [
  | inl o ↦ ground arith
  | inr (j, o) ↦
      let now = record j { labels = labels; updated_at = "later" } in
      let found = get-set_same store n now in
      (record now { number = n }, (rw o (ap (numbered n) found), (ground arith, λ label. refl)))
]

leaves_others :
    (store : Dict ℕ RuntimeIssue) (k n : ℕ) (labels : List String)
    → (k == n) ≡ false
    → numbered n (Dict.get (relabel store k labels (Dict.get store k)) n)
      ≡ numbered n (Dict.get store n)
leaves_others store k n labels q = elim (Option-cases (Dict.get store k)) [
  | inl o ↦ rw o refl
  | inr (j, o) ↦
      let found = get-set store k (record j { labels = labels; updated_at = "later" }) n in
      rw o (ap (numbered n) (found ∙ ground arith))
]

documented : IsDocumented server
documented = record {
  numbered = λ {store} {n} e. has_number n (Dict.get store n) e;
  absent = stays_absent;
  edited = is_edited;
  others = leaves_others;
}

abbrev no_failure : ℕ → Option String
no_failure n = none

abbrev tracker_issues : List ReadyPromotionTrackerIssue
tracker_issues =
    record {
      issue_number = 2;
      issue_identifier = none;
      title = none;
      state = "open";
      has_ready_label = false;
    }
    ∷ []

computed : (evaluate_ready_promotion release facts tracker_issues).state ≡ eligible_set_computed
unfolding evaluate_ready_promotion Dict.has Dict.set
computed = refl

evaluate_ready_promotion-Decides_example :
    let d = evaluate_ready_promotion release facts tracker_issues in
    Decides (facts_from [] facts) (tracked_from [] tracker_issues) release.dependencies 2 (record {
      eligible = d.eligible_issues;
      to_add = d.add_ready_label_to;
      to_remove = d.remove_ready_label_from;
    })
evaluate_ready_promotion-Decides_example =
    evaluate_ready_promotion-Decides release facts tracker_issues 2 computed

first_synchronized :
    (promote server no_failure "ready" "t" release facts true on_git_hub).result.state
    ≡ labels_synchronized
unfolding create_promotion_result evaluate_ready_promotion Dict.has Dict.set all
first_synchronized = refl

-- The label goes to the second issue, and the third, which is no part of the release, keeps it.
first_labels :
    let after = (promote server no_failure "ready" "t" release facts true on_git_hub).store in
    (server.get_issue after 2
      ≡ some (record (issue 2 ("bug" ∷ "ready" ∷ [])) { updated_at = "later" }))
    × (server.get_issue after 3 ≡ some (issue 3 ("ready" ∷ [])))
unfolding create_promotion_result Dict.get evaluate_ready_promotion Dict.has Dict.set all
first_labels = (refl, refl)

labels-promote_example :
    let after = (promote server no_failure "ready" "t" release facts true on_git_hub).store in
    (option_map (λ i. contains i.labels "ready") (server.get_issue after 2)
      ≡ option_map (is_due "ready" release facts 2) (server.get_issue on_git_hub 2))
    × (option_map (λ i. i.state) (server.get_issue after 2)
        ≡ option_map (λ i. i.state) (server.get_issue on_git_hub 2))
labels-promote_example =
    labels-promote server documented no_failure "ready" "t" release facts true on_git_hub
      first_synchronized 2

promote-promote_example :
    let first = (promote server no_failure "ready" "t" release facts true on_git_hub).store in
    let second = promote server no_failure "ready" "u" release facts true first in
    (second.store ≡ first)
    × ((second.result.ready_labels_added ≡ []) × (second.result.ready_labels_removed ≡ []))
promote-promote_example =
    promote-promote server documented no_failure "ready" "t" release facts true on_git_hub
      no_failure "u" first_synchronized
