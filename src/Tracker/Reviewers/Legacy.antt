-- ===== src/Tracker/Reviewers/Legacy.antt =====
-- src/tracker/reviewer-app-legacy.ts: the snapshot of the review bots that are configured by login
-- alone.
use symphony_ts.Base.{
  String, Bool, true, not, ◌&&◌, ◌||◌, List, [], ◌∷◌, ◌++◌, map, filter, any, Option, none, some,
  if◌then◌else◌, is_nonempty, ltb, ◌==◌, string_eq,
}
use symphony_ts.Base.Text.{includes}
use symphony_ts.Base.Sets.{contains, set_of}
use symphony_ts.Base.Lines.{trim}
use symphony_ts.Domain.Handoff.{PullRequestCheck, PullRequestCheckStatus, ReviewFeedback}
use symphony_ts.Tracker.Snapshot.{
  ReviewerAppSnapshot, ReviewerAppVerdict, ReviewerAppStatus, ReviewerAppCoverage, pass,
  issues_found,
}
use symphony_ts.Tracker.TextEngine.{
  TextEngine, normalize_git_hub_login, create_git_hub_login_set, devin_informational_heading,
  cursor_taking_a_look, cursor_agent_links, greptile_summary_heading,
}
use symphony_ts.Tracker.Reviewers.Input.{
  CurrentHeadIssueComment, CurrentHeadPullRequestReview, ReviewerAppAdapterInput, is_pending,
  is_success, is_issues_found, create_issue_comment_feedback, create_pull_request_review_feedback,
  check_evidence, normalize_body, has_author, comment_evidence, review_evidence, feedback_evidence,
}
use symphony_ts.Tracker.Reviewers.Devin.{devin_login, parse_devin_verdict}

abbrev cursor_summary : String
cursor_summary = "<!-- CURSOR_SUMMARY -->"

-- `APPROVED_REVIEW_BOT_STATUS_CONTEXTS[login]`, empty where the table has no entry.
unfoldable pub status_contexts : String → List String
status_contexts login =
    if login == "devin-ai-integration"
    then "Devin Review" ∷ []
    else if login == "greptile-apps" || login == "greptile"
    then "Greptile Review" ∷ []
    else if login == "cursor" || login == "bugbot"
    then "Cursor Bugbot" ∷ []
    else []

-- The names of the checks with a status, as a set.
unfoldable pub check_names : (PullRequestCheckStatus → Bool) → List PullRequestCheck → List String
unfolding set_of
check_names status checks =
    set_of (map (λ check. check.name) (filter (λ check. status check.status) checks))

-- `statusContexts !== undefined && statusContexts.some((context) => names.has(context))`
unfoldable pub has_context : List String → String → Bool
unfolding status_contexts contains
has_context names login = any (contains names) (status_contexts login)

unfoldable pub observed_approved_review_bot_logins_from_checks :
    List PullRequestCheck → List String → List String
unfolding has_context check_names
observed_approved_review_bot_logins_from_checks checks approved_review_bot_logins =
    filter (has_context (check_names is_success checks)) approved_review_bot_logins

unfoldable pub has_pending_approved_review_check : List PullRequestCheck → List String → Bool
unfolding has_context check_names
has_pending_approved_review_check checks approved_review_bot_logins =
    any (has_context (check_names is_pending checks)) approved_review_bot_logins

module _ (js : TextEngine) where
  -- An informational comment of Devin.
  unfoldable pub is_devin_information : Option String → String → Bool
  unfolding has_author
  is_devin_information author_login normalized =
      has_author js (λ login. login == devin_login) author_login
      && js.test devin_informational_heading normalized

  unfoldable pub is_non_actionable_bot_body : Option String → String → Bool
  unfolding normalize_body is_devin_information includes
  is_non_actionable_bot_body author_login body =
      let raw = trim body in
      let normalized = normalize_body js body in
      if is_devin_information author_login normalized
      then true
      else includes raw cursor_summary
        || ((js.test cursor_taking_a_look normalized && js.test cursor_agent_links normalized)
            || js.test greptile_summary_heading normalized)

  unfoldable pub is_qualifying_approved_review_body : Option String → String → Bool
  unfolding normalize_body is_devin_information includes
  is_qualifying_approved_review_body author_login body =
      let raw = trim body in
      let normalized = normalize_body js body in
      ltb 0 (js.code_units normalized)
      && (not (includes raw cursor_summary)
          && (not (js.test cursor_taking_a_look normalized && js.test cursor_agent_links normalized)
              && not (is_devin_information author_login normalized)))

  unfoldable pub is_actionable_accepted_bot_body : Option String → String → Bool
  unfolding normalize_body is_non_actionable_bot_body
  is_actionable_accepted_bot_body author_login body =
      ltb 0 (js.code_units (normalize_body js body))
      && not (is_non_actionable_bot_body author_login body)

  unfoldable pub parse_known_bot_verdict : Option String → String → ReviewerAppVerdict
  unfolding has_author parse_devin_verdict
  parse_known_bot_verdict author_login body =
      if has_author js (λ login. login == devin_login) author_login
      then parse_devin_verdict js body
      else ReviewerAppVerdict.unknown

  -- The three parts of `actionableFeedback`, by the set of accepted logins.
  unfoldable pub actionable_threads : List String → List ReviewFeedback → List ReviewFeedback
  unfolding has_author is_non_actionable_bot_body contains
  actionable_threads accepted threads =
      filter
        (λ feedback.
          has_author js (contains accepted) feedback.author_login
          && not (is_non_actionable_bot_body feedback.author_login feedback.body))
        threads

  unfoldable pub actionable_comments :
      List String → List CurrentHeadIssueComment → List CurrentHeadIssueComment
  unfolding has_author is_actionable_accepted_bot_body contains
  actionable_comments accepted comments =
      filter
        (λ comment.
          has_author js (contains accepted) comment.author_login
          && is_actionable_accepted_bot_body comment.author_login comment.body)
        comments

  unfoldable pub actionable_reviews :
      List String → List CurrentHeadPullRequestReview → List CurrentHeadPullRequestReview
  unfolding has_author parse_known_bot_verdict contains
  actionable_reviews accepted reviews =
      filter
        (λ review.
          has_author js (contains accepted) review.author_login
          && is_issues_found (parse_known_bot_verdict review.author_login review.body))
        reviews

  unfoldable pub legacy_feedback : List String → ReviewerAppAdapterInput → List ReviewFeedback
  unfolding actionable_threads actionable_comments actionable_reviews create_issue_comment_feedback
      create_pull_request_review_feedback
  legacy_feedback accepted input =
      actionable_threads accepted input.unresolved_review_threads
      ++ (map create_issue_comment_feedback
            (actionable_comments accepted input.current_head_issue_comments)
          ++ map create_pull_request_review_feedback
              (actionable_reviews accepted input.current_head_pull_request_reviews))

  -- `normalizeGitHubLogin(comment.authorLogin!)` after a filter that demands an author.
  unfoldable pub author_of : Option String → List String
  unfolding normalize_git_hub_login
  author_of none = []
  author_of (some login) = normalize_git_hub_login js login ∷ []

  -- The authors among the approved bots of qualifying bodies, in order.
  unfoldable pub qualifying_authors : List String → Option String → String → List String
  unfolding has_author is_qualifying_approved_review_body author_of contains
  qualifying_authors approved author_login body =
      if has_author js (contains approved) author_login
        && is_qualifying_approved_review_body author_login body
      then author_of author_login
      else []

  unfoldable pub comment_authors : List String → List CurrentHeadIssueComment → List String
  unfolding qualifying_authors
  comment_authors approved [] = []
  comment_authors approved (comment ∷ rest) =
      qualifying_authors approved comment.author_login comment.body ++ comment_authors approved rest

  unfoldable pub review_authors : List String → List CurrentHeadPullRequestReview → List String
  unfolding qualifying_authors
  review_authors approved [] = []
  review_authors approved (review ∷ rest) =
      qualifying_authors approved review.author_login review.body ++ review_authors approved rest

  unfoldable pub observed_approved_review_bot_logins :
      List String → ReviewerAppAdapterInput → List String
  unfolding comment_authors review_authors observed_approved_review_bot_logins_from_checks set_of
  observed_approved_review_bot_logins approved input = set_of (
      comment_authors approved input.current_head_issue_comments
      ++ (review_authors approved input.current_head_pull_request_reviews
          ++ observed_approved_review_bot_logins_from_checks input.checks approved))

  unfoldable pub legacy_snapshot :
      List String → List String → ReviewerAppAdapterInput → ReviewerAppSnapshot
  unfolding legacy_feedback observed_approved_review_bot_logins has_pending_approved_review_check
      check_evidence comment_evidence review_evidence feedback_evidence has_author contains
      status_contexts set_of
  legacy_snapshot review_bots approved input =
      let accepted_bots = set_of (review_bots ++ approved) in
      let actionable_feedback = legacy_feedback accepted_bots input in
      let observed = observed_approved_review_bot_logins approved input in
      let is_observed = is_nonempty observed || is_nonempty actionable_feedback in
      record {
        reviewer_key = "legacy-bot-review";
        accepted = is_nonempty review_bots || is_nonempty approved;
        required = is_nonempty approved;
        coverage =
            if is_observed then ReviewerAppCoverage.observed else ReviewerAppCoverage.missing;
        status =
            if is_nonempty approved && has_pending_approved_review_check input.checks approved
            then ReviewerAppStatus.running
            else if is_observed
            then ReviewerAppStatus.completed
            else ReviewerAppStatus.unknown;
        verdict =
            if is_nonempty actionable_feedback
            then issues_found
            else if is_nonempty observed
            then pass
            else ReviewerAppVerdict.unknown;
        actionable_feedback = actionable_feedback;
        unresolved_feedback_ids = map (λ feedback. feedback.id) actionable_feedback;
        evidence =
            map (feedback_evidence js) actionable_feedback
            ++ (map check_evidence (
                  filter
                    (λ check. any (λ login. contains (status_contexts login) check.name) approved)
                    input.checks)
                ++ (map (comment_evidence js) (
                      filter
                        (λ comment.
                          has_author js
                            (λ login. contains review_bots login || contains approved login)
                            comment.author_login)
                        input.current_head_issue_comments)
                    ++ map (review_evidence js) (
                        filter (λ review. has_author js (contains approved) review.author_login)
                          input.current_head_pull_request_reviews)));
      }

  unfoldable pub create_legacy_reviewer_app_snapshot :
      List String → List String → ReviewerAppAdapterInput → Option ReviewerAppSnapshot
  unfolding legacy_snapshot create_git_hub_login_set
  create_legacy_reviewer_app_snapshot review_bot_logins approved_review_bot_logins input =
      if not (is_nonempty review_bot_logins) && not (is_nonempty approved_review_bot_logins)
      then none
      else some (
          legacy_snapshot (create_git_hub_login_set js review_bot_logins)
            (create_git_hub_login_set js approved_review_bot_logins) input)
