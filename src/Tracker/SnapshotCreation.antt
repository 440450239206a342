-- ===== src/Tracker/SnapshotCreation.antt =====
-- `createPullRequestSnapshot` of src/tracker/pull-request-snapshot.ts, and the responses of
-- github-client.ts that it reads. It throws on a live review thread with no comment: none.
pub mod Laws
pub mod Landing
pub mod Safety
use symphony_ts.Base.{
  ℕ, String, Bool, true, false, not, ◌&&◌, ◌||◌, List, [], ◌∷◌, ◌++◌, map, filter, Option, none,
  some, if◌then◌else◌, is_some, or_else, ltb, ◌==◌, string_eq,
}
use symphony_ts.Base.Int.{ℤ}
use symphony_ts.Base.Sort.{sort_by}
use symphony_ts.Base.Sets.{contains, set_of}
use symphony_ts.Base.Text.{ends_with}
use symphony_ts.Domain.Handoff.{
  PullRequestCheck, LandingCommandObservation, ReviewFeedback, ReviewFeedbackKind, review_thread,
}
use symphony_ts.Domain.Workflow.{GitHubReviewerAppConfig}
use symphony_ts.Tracker.Snapshot.{PullRequestSnapshot, ReviewerAppSnapshot, LandingState}
use symphony_ts.Tracker.TextEngine.{
  TextEngine, normalize_git_hub_login, parse_landing_command_signal,
}
use symphony_ts.Tracker.Reviewers.{
  ReviewerConfig, create_reviewer_app_snapshots, evaluate_reviewer_verdict,
  evaluate_required_reviewer_state, get_configured_reviewer_app_logins, is_coverage_observed,
}
use symphony_ts.Tracker.Reviewers.Input.{
  CurrentHeadIssueComment, CurrentHeadPullRequestReview, ReviewerAppAdapterInput, is_pending,
  is_failure,
}
use symphony_ts.Tracker.Reviewers.Devin.{first_of}

-- A field that the response may lack is an option; one that may be null, another.
pub record GitHubPullRequestResponse : Type 0 where
  pub number : ℕ
  pub html_url : String
  pub head_ref : String
  pub head_sha : String
  pub landing_state : LandingState
  pub mergeable : Option (Option Bool)
  pub mergeable_state : Option (Option String)
  pub draft : Option Bool

pub record ThreadComment : Type 0 where
  pub id : String
  pub body : String
  pub created_at : String
  pub url : String
  pub path : Option String
  pub line : Option ℕ
  pub author : Option String

pub record ReviewThread : Type 0 where
  pub id : String
  pub is_resolved : Bool
  pub is_outdated : Bool
  pub origin_comments : List ThreadComment
  pub latest_comments : List ThreadComment

pub record PullRequestReviewState : Type 0 where
  -- The dates of the commits, the last commit's first.
  pub commits : List String
  -- The comments and reviews with the login of their author, where there is one.
  pub comments : List CurrentHeadIssueComment
  pub reviews : Option (List CurrentHeadPullRequestReview)
  pub review_threads : List ReviewThread

pub record SnapshotInput : Type 0 where
  pub branch_name : String
  pub pull_request : GitHubPullRequestResponse
  pub checks : List PullRequestCheck
  pub review_state : PullRequestReviewState
  pub reviewers : ReviewerConfig

unfoldable pub has_mergeability_fields : GitHubPullRequestResponse → Bool
has_mergeability_fields pull_request =
    is_some pull_request.mergeable
    && (is_some pull_request.mergeable_state && is_some pull_request.draft)

-- `!thread.isResolved && !thread.isOutdated`
abbrev pub is_live : ReviewThread → Bool
is_live thread = not thread.is_resolved && not thread.is_outdated

unfoldable pub thread_feedback : ReviewThread → ThreadComment → ThreadComment → ReviewFeedback
thread_feedback thread origin latest = record {
  id = latest.id;
  kind = review_thread;
  thread_id = some thread.id;
  author_login = origin.author;
  body = latest.body;
  created_at = latest.created_at;
  url = latest.url;
  path = latest.path;
  line = latest.line;
}

unfoldable pub feedback_of :
    ReviewThread → Option ThreadComment → Option ThreadComment → Option ReviewFeedback
unfolding thread_feedback
feedback_of thread (some origin) (some latest) = some (thread_feedback thread origin latest)
feedback_of thread _ _ = none

abbrev cons_both :
    Option ReviewFeedback → Option (List ReviewFeedback) → Option (List ReviewFeedback)
cons_both (some feedback) (some rest) = some (feedback ∷ rest)
cons_both _ _ = none

-- The map over the live threads.
unfoldable pub feedback_of_threads : List ReviewThread → Option (List ReviewFeedback)
unfolding feedback_of
feedback_of_threads [] = some []
feedback_of_threads (thread ∷ rest) =
    cons_both
      (feedback_of thread (first_of thread.origin_comments) (first_of thread.latest_comments))
      (feedback_of_threads rest)

unfoldable pub unresolved_threads : PullRequestReviewState → Option (List ReviewFeedback)
unfolding feedback_of_threads
unresolved_threads review_state = feedback_of_threads (filter is_live review_state.review_threads)

-- `mergeable_state?.toLowerCase() ?? null`
abbrev lowered : (String → String) → Option String → Option String
lowered f none = none
lowered f (some s) = some (f s)

-- The thread ids of the feedback that came from a thread.
unfoldable pub thread_ids : List ReviewFeedback → List String
thread_ids [] = []
thread_ids (feedback ∷ rest) = elim feedback.kind [
  | review_thread ↦ elim feedback.thread_id [
    | none ↦ thread_ids rest
    | some id ↦ id ∷ thread_ids rest
  ]
  | _ ↦ thread_ids rest
]

-- The feedback of the accepted reviewer apps.
unfoldable pub bot_feedback : List ReviewerAppSnapshot → List ReviewFeedback
bot_feedback [] = []
bot_feedback (reviewer ∷ rest) =
    (if reviewer.accepted then reviewer.actionable_feedback else []) ++ bot_feedback rest

unfoldable pub landing_command_of : CurrentHeadIssueComment → LandingCommandObservation
landing_command_of comment = record {
  comment_id = comment.id;
  author_login = comment.author_login;
  observed_at = comment.created_at;
  url = comment.url;
}

module _ (js : TextEngine) where
  -- `Date.parse(left) > Date.parse(right)`, false where a date is NaN.
  unfoldable pub is_after : String → Option String → Bool
  is_after left none = true
  is_after left (some right) = elim (js.date_parse left) [
    | none ↦ false
    | some l ↦ elim (js.date_parse right) [ none ↦ false | some r ↦ ltb r l ]
  ]

  unfoldable pub compare_iso_timestamps_descending : String → String → ℤ
  compare_iso_timestamps_descending left right = js.locale_compare right left

  unfoldable pub is_qualifying_landing_command_author : Option String → String → List String → Bool
  unfolding normalize_git_hub_login ends_with contains
  is_qualifying_landing_command_author none author_association reviewer_app_logins = false
  is_qualifying_landing_command_author (some login) author_association reviewer_app_logins =
      if contains reviewer_app_logins (normalize_git_hub_login js login)
      then false
      else if ends_with (js.to_lower_case login) "[bot]"
      then true
      else author_association == "OWNER"
        || (author_association == "MEMBER" || author_association == "COLLABORATOR")

  unfoldable pub current_head_issue_comments : PullRequestReviewState → List CurrentHeadIssueComment
  unfolding is_after
  current_head_issue_comments review_state =
      filter (λ comment. is_after comment.created_at (first_of review_state.commits))
        review_state.comments

  unfoldable pub current_head_pull_request_reviews :
      PullRequestReviewState → List CurrentHeadPullRequestReview
  unfolding is_after
  current_head_pull_request_reviews review_state =
      filter (λ review. is_after review.submitted_at (first_of review_state.commits))
        (or_else review_state.reviews [])

  -- The filter of the landing command.
  unfoldable pub is_landing_command : List String → CurrentHeadIssueComment → Bool
  unfolding is_qualifying_landing_command_author parse_landing_command_signal
  is_landing_command reviewer_app_logins comment =
      is_qualifying_landing_command_author comment.author_login comment.author_association
        reviewer_app_logins
      && parse_landing_command_signal js comment.body

  unfoldable pub find_landing_command :
      Option String → List String → List CurrentHeadIssueComment → Option LandingCommandObservation
  unfolding is_landing_command compare_iso_timestamps_descending landing_command_of
  find_landing_command none reviewer_app_logins comments = none
  find_landing_command (some latest_commit_at) reviewer_app_logins comments = first_of (
      map landing_command_of (
        sort_by (λ left right. compare_iso_timestamps_descending left.created_at right.created_at)
          (filter (is_landing_command reviewer_app_logins) comments)))

  -- `authorLogin === null || !reviewerAppLogins.has(normalizeGitHubLogin(authorLogin))`
  unfoldable pub is_human : List String → Option String → Bool
  unfolding normalize_git_hub_login contains
  is_human reviewer_app_logins none = true
  is_human reviewer_app_logins (some login) =
      not (contains reviewer_app_logins (normalize_git_hub_login js login))

  -- The threads of `actionableReviewFeedback` that no accepted app has.
  unfoldable pub human_threads :
      List String → List ReviewFeedback → List ReviewFeedback → List ReviewFeedback
  unfolding is_human contains set_of
  human_threads reviewer_app_logins bot_actionable threads =
      let bot_ids = set_of (map (λ feedback. feedback.id) bot_actionable) in
      filter
        (λ feedback.
          if contains bot_ids feedback.id
          then false
          else is_human reviewer_app_logins feedback.author_login)
        threads

  unfoldable pub adapter_input : SnapshotInput → List ReviewFeedback → ReviewerAppAdapterInput
  unfolding current_head_issue_comments current_head_pull_request_reviews
  adapter_input input threads = record {
    checks = input.checks;
    current_head_issue_comments = current_head_issue_comments input.review_state;
    current_head_pull_request_reviews = current_head_pull_request_reviews input.review_state;
    unresolved_review_threads = threads;
  }

  -- From the unresolved threads to the snapshot.
  unfoldable pub snapshot_with : SnapshotInput → List ReviewFeedback → PullRequestSnapshot
  unfolding adapter_input find_landing_command human_threads thread_ids bot_feedback
      has_mergeability_fields create_reviewer_app_snapshots evaluate_reviewer_verdict
      evaluate_required_reviewer_state get_configured_reviewer_app_logins
      current_head_issue_comments
  snapshot_with input threads =
      let latest_commit_at = first_of input.review_state.commits in
      let logins = get_configured_reviewer_app_logins js input.reviewers in
      let apps = create_reviewer_app_snapshots js input.reviewers (adapter_input input threads) in
      let command =
        find_landing_command latest_commit_at logins
          (current_head_issue_comments input.review_state) in
      let bot_actionable = bot_feedback apps in
      let verdict = evaluate_reviewer_verdict apps in
      let detailed = has_mergeability_fields input.pull_request in
      record {
        branch_name = input.branch_name;
        pull_request = record {
          number = input.pull_request.number;
          url = input.pull_request.html_url;
          branch_name = input.pull_request.head_ref;
          head_sha = some input.pull_request.head_sha;
          latest_commit_at = latest_commit_at;
          merged_at = none;
        };
        landing_state = input.pull_request.landing_state;
        draft = if detailed then or_else input.pull_request.draft false else false;
        mergeable = if detailed then or_else input.pull_request.mergeable none else none;
        merge_state_status =
            if detailed
            then lowered js.to_lower_case (or_else input.pull_request.mergeable_state none)
            else none;
        has_landing_command = is_some command;
        landing_command = command;
        checks = input.checks;
        pending_check_names =
            map (λ check. check.name) (filter (λ check. is_pending check.status) input.checks);
        failing_check_names =
            map (λ check. check.name) (filter (λ check. is_failure check.status) input.checks);
        actionable_review_feedback = human_threads logins bot_actionable threads ++ bot_actionable;
        bot_actionable_review_feedback = bot_actionable;
        unresolved_thread_ids = thread_ids bot_actionable;
        reviewer_apps = apps;
        reviewer_verdict = verdict.verdict;
        blocking_reviewer_keys = verdict.blocking_reviewer_keys;
        required_reviewer_state = evaluate_required_reviewer_state apps;
        observed_reviewer_keys =
            map (λ reviewer. reviewer.reviewer_key)
              (filter (λ reviewer. is_coverage_observed reviewer.coverage) apps);
      }

  abbrev with_threads : SnapshotInput → Option (List ReviewFeedback) → Option PullRequestSnapshot
  with_threads input none = none
  with_threads input (some threads) = some (snapshot_with input threads)

  unfoldable pub create_pull_request_snapshot : SnapshotInput → Option PullRequestSnapshot
  unfolding snapshot_with unresolved_threads
  create_pull_request_snapshot input = with_threads input (unresolved_threads input.review_state)
