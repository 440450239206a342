-- ===== src/Tracker/Reviewers.antt =====
-- src/tracker/reviewer-apps.ts: the snapshots of all reviewer apps, and what they say together.
pub mod Input
pub mod Devin
pub mod Legacy
pub mod Laws
pub mod Coherence
use symphony_ts.Base.{
  String, Bool, true, false, not, ◌&&◌, List, [], ◌∷◌, ◌++◌, map, filter, any, Option, none, some,
  if◌then◌else◌, is_nonempty, ◌==◌, string_eq,
}
use symphony_ts.Base.Sets.{contains, add, add_all}
use symphony_ts.Domain.Handoff.{
  PullRequestReviewerVerdict, no_blocking_verdict, blocking_issues_found,
  PullRequestRequiredReviewerState, not_required, running, missing, unknown, satisfied,
}
use symphony_ts.Domain.Workflow.{GitHubReviewerAppConfig}
use symphony_ts.Tracker.Snapshot.{ReviewerAppSnapshot, ReviewerAppStatus, ReviewerAppCoverage}
use symphony_ts.Tracker.TextEngine.{TextEngine, normalize_git_hub_login}
use symphony_ts.Tracker.Reviewers.Input.{ReviewerAppAdapterInput, is_pass, is_issues_found}
use symphony_ts.Tracker.Reviewers.Devin.{devin_evaluate, devin_login}
use symphony_ts.Tracker.Reviewers.Legacy.{create_legacy_reviewer_app_snapshot}

-- The part of the tracker's configuration that names reviewers; an absent list is empty.
pub record ReviewerConfig : Type 0 where
  pub review_bot_logins : List String
  pub approved_review_bot_logins : List String
  pub reviewer_apps : List GitHubReviewerAppConfig

pub record GitHubReviewerAppAdapter : Type 0 where
  pub key : String
  pub handled_logins : List String
  pub evaluate : GitHubReviewerAppConfig → ReviewerAppAdapterInput → ReviewerAppSnapshot

abbrev pub is_status_running : ReviewerAppStatus → Bool
is_status_running ReviewerAppStatus.running = true
is_status_running _ = false

abbrev pub is_coverage_missing : ReviewerAppCoverage → Bool
is_coverage_missing ReviewerAppCoverage.missing = true
is_coverage_missing _ = false

abbrev pub is_coverage_observed : ReviewerAppCoverage → Bool
is_coverage_observed ReviewerAppCoverage.observed = true
is_coverage_observed _ = false

unfoldable pub evaluate_required_reviewer_state :
    List ReviewerAppSnapshot → PullRequestRequiredReviewerState
evaluate_required_reviewer_state reviewer_apps =
    let required = filter (λ reviewer. reviewer.required) reviewer_apps in
    if not (is_nonempty required)
    then not_required
    else if any (λ reviewer. is_status_running reviewer.status) required
    then running
    else if any (λ reviewer. is_coverage_missing reviewer.coverage) required
    then missing
    else if any (λ reviewer. not (is_pass reviewer.verdict)) required
    then unknown
    else satisfied

unfoldable pub blocking_keys : List ReviewerAppSnapshot → List String
blocking_keys reviewer_apps =
    map (λ reviewer. reviewer.reviewer_key)
      (filter (λ reviewer. reviewer.accepted && is_issues_found reviewer.verdict) reviewer_apps)

pub record ReviewerVerdictResult : Type 0 where
  pub verdict : PullRequestReviewerVerdict
  pub blocking_reviewer_keys : List String

unfoldable pub evaluate_reviewer_verdict : List ReviewerAppSnapshot → ReviewerVerdictResult
unfolding blocking_keys
evaluate_reviewer_verdict reviewer_apps =
    let blocking_reviewer_keys = blocking_keys reviewer_apps in
    record {
      verdict =
          if is_nonempty blocking_reviewer_keys then blocking_issues_found else no_blocking_verdict;
      blocking_reviewer_keys = blocking_reviewer_keys;
    }

module _ (js : TextEngine) where
  -- `REVIEWER_APP_ADAPTERS`, the map with the one adapter.
  unfoldable pub reviewer_app_adapter : String → Option GitHubReviewerAppAdapter
  unfolding devin_evaluate
  reviewer_app_adapter key =
      if key == "devin"
      then some (record {
        key = "devin";
        handled_logins = devin_login ∷ [];
        evaluate = devin_evaluate js;
      })
      else none

  -- `adapter?.handledLogins ?? []`, normalised.
  unfoldable pub handled_logins_of : Option GitHubReviewerAppAdapter → List String
  unfolding normalize_git_hub_login
  handled_logins_of none = []
  handled_logins_of (some adapter) = map (normalize_git_hub_login js) adapter.handled_logins

  -- The logins that the adapters of the configured apps handle, added to a set.
  unfoldable pub handled_logins : List String → List GitHubReviewerAppConfig → List String
  unfolding add_all handled_logins_of reviewer_app_adapter
  handled_logins logins [] = logins
  handled_logins logins (reviewer_app ∷ rest) =
      handled_logins (add_all logins (handled_logins_of (reviewer_app_adapter reviewer_app.key)))
        rest

  unfoldable pub get_configured_reviewer_app_logins : ReviewerConfig → List String
  unfolding add_all handled_logins normalize_git_hub_login
  get_configured_reviewer_app_logins config =
      handled_logins
        (add_all (add_all [] (map (normalize_git_hub_login js) config.review_bot_logins))
          (map (normalize_git_hub_login js) config.approved_review_bot_logins))
        config.reviewer_apps

  abbrev evaluate_with :
      Option GitHubReviewerAppAdapter
      → GitHubReviewerAppConfig
      → ReviewerAppAdapterInput
      → List ReviewerAppSnapshot
  evaluate_with none reviewer_app input = []
  evaluate_with (some adapter) reviewer_app input = adapter.evaluate reviewer_app input ∷ []

  -- The snapshots of the apps that have an adapter.
  unfoldable pub explicit_snapshots :
      List GitHubReviewerAppConfig → ReviewerAppAdapterInput → List ReviewerAppSnapshot
  unfolding reviewer_app_adapter
  explicit_snapshots [] input = []
  explicit_snapshots (reviewer_app ∷ rest) input =
      evaluate_with (reviewer_app_adapter reviewer_app.key) reviewer_app input
      ++ explicit_snapshots rest input

  -- The logins that no adapter handles.
  unfoldable pub unhandled : List String → List String → List String
  unfolding contains normalize_git_hub_login
  unhandled handled logins =
      filter (λ login. not (contains handled (normalize_git_hub_login js login))) logins

  abbrev with_legacy :
      List ReviewerAppSnapshot → Option ReviewerAppSnapshot → List ReviewerAppSnapshot
  with_legacy snapshots none = snapshots
  with_legacy snapshots (some legacy) = snapshots ++ legacy ∷ []

  unfoldable pub create_reviewer_app_snapshots :
      ReviewerConfig → ReviewerAppAdapterInput → List ReviewerAppSnapshot
  unfolding handled_logins explicit_snapshots unhandled create_legacy_reviewer_app_snapshot
  create_reviewer_app_snapshots config input =
      let handled = handled_logins [] config.reviewer_apps in
      with_legacy (explicit_snapshots config.reviewer_apps input) (
        create_legacy_reviewer_app_snapshot js (unhandled handled config.review_bot_logins)
          (unhandled handled config.approved_review_bot_logins) input)
