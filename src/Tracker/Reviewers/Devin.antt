-- ===== src/Tracker/Reviewers/Devin.antt =====
-- src/tracker/reviewer-app-devin.ts: the adapter of the Devin reviewer app.
use symphony_ts.Base.{
  String, Bool, not, ◌&&◌, ◌||◌, List, [], ◌∷◌, ◌++◌, map, filter, any, Option, none, some,
  if◌then◌else◌, is_nonempty, ◌==◌, string_eq,
}
use symphony_ts.Base.Int.{ℤ, pos, sub_ℕ}
use symphony_ts.Base.Sort.{sort_by}
use symphony_ts.Base.Lines.{split_lines}
use symphony_ts.Domain.Handoff.{PullRequestCheck, PullRequestCheckStatus, ReviewFeedback}
use symphony_ts.Domain.Workflow.{GitHubReviewerAppConfig}
use symphony_ts.Tracker.Snapshot.{
  ReviewerAppSnapshot, ReviewerAppVerdict, ReviewerAppStatus, ReviewerAppCoverage, pass,
  issues_found,
}
use symphony_ts.Tracker.TextEngine.{
  TextEngine, devin_informational_heading, devin_review, found_potential_issues, issues_found_line,
  no_issues_found_line,
}
use symphony_ts.Tracker.Reviewers.Input.{
  CurrentHeadIssueComment, CurrentHeadPullRequestReview, ReviewerAppAdapterInput, is_pending,
  is_success, is_failure, is_pass, is_issues_found, create_issue_comment_feedback,
  create_pull_request_review_feedback, check_evidence, normalize_body, has_author, comment_evidence,
  review_evidence, feedback_evidence,
}

abbrev pub devin_login : String
devin_login = "devin-ai-integration"

abbrev pub devin_check_name : String
devin_check_name = "Devin Review"

pub record DevinArtifact : Type 0 where
  pub created_at : String
  pub verdict : ReviewerAppVerdict
  pub feedback : ReviewFeedback

-- `entry.verdict !== "unknown"`
abbrev pub is_recognized : DevinArtifact → Bool
is_recognized entry = is_pass entry.verdict || is_issues_found entry.verdict

abbrev pub has_matching_check : List PullRequestCheck → (PullRequestCheckStatus → Bool) → Bool
has_matching_check checks status =
    any (λ check. check.name == devin_check_name && status check.status) checks

abbrev pub first_of {ℓ} : {A : Type ℓ} → List A → Option A
first_of [] = none
first_of (x ∷ xs) = some x

-- `latestArtifact?.verdict ?? "unknown"`
abbrev pub artifact_verdict : Option DevinArtifact → ReviewerAppVerdict
artifact_verdict none = ReviewerAppVerdict.unknown
artifact_verdict (some entry) = entry.verdict

-- The feedback of the latest artifact, where it found issues.
abbrev pub artifact_feedback : Option DevinArtifact → List ReviewFeedback
artifact_feedback none = []
artifact_feedback (some entry) = if is_issues_found entry.verdict then entry.feedback ∷ [] else []

module _ (js : TextEngine) where
  unfoldable pub is_informational_devin_body : String → Bool
  unfolding normalize_body
  is_informational_devin_body body = js.test devin_informational_heading (normalize_body js body)

  unfoldable pub devin_review_summary_lines : String → List String
  devin_review_summary_lines body = filter (js.test devin_review) (split_lines body)

  unfoldable pub parse_devin_verdict : String → ReviewerAppVerdict
  unfolding devin_review_summary_lines
  parse_devin_verdict body =
      let summary_lines = devin_review_summary_lines body in
      if not (is_nonempty summary_lines)
      then ReviewerAppVerdict.unknown
      else if any
          (λ line.
            js.test found_potential_issues line
            || (js.test issues_found_line line && not (js.test no_issues_found_line line)))
          summary_lines
      then issues_found
      else if any (js.test no_issues_found_line) summary_lines
      then pass
      else ReviewerAppVerdict.unknown

  -- `Date.parse(right) - Date.parse(left)`; NaN compares as zero.
  unfoldable pub date_order : DevinArtifact → DevinArtifact → ℤ
  date_order left right = elim (js.date_parse right.created_at) [
    | none ↦ pos 0
    | some r ↦ elim (js.date_parse left.created_at) [ none ↦ pos 0 | some l ↦ sub_ℕ r l ]
  ]

  unfoldable pub comment_artifact : CurrentHeadIssueComment → DevinArtifact
  unfolding parse_devin_verdict create_issue_comment_feedback
  comment_artifact comment = record {
    created_at = comment.created_at;
    verdict = parse_devin_verdict comment.body;
    feedback = create_issue_comment_feedback comment;
  }

  unfoldable pub review_artifact : CurrentHeadPullRequestReview → DevinArtifact
  unfolding parse_devin_verdict create_pull_request_review_feedback
  review_artifact review = record {
    created_at = review.submitted_at;
    verdict = parse_devin_verdict review.body;
    feedback = create_pull_request_review_feedback review;
  }

  unfoldable pub latest_recognized_artifact :
      List CurrentHeadIssueComment → List CurrentHeadPullRequestReview → Option DevinArtifact
  unfolding date_order comment_artifact review_artifact
  latest_recognized_artifact comments reviews = first_of (
      sort_by date_order (
        filter is_recognized (map comment_artifact comments)
        ++ filter is_recognized (map review_artifact reviews)))

  -- `isDevinAuthoredFeedback`, also of comments and reviews.
  unfoldable pub is_devin_authored : Option String → Bool
  unfolding has_author
  is_devin_authored author_login = has_author js (λ login. login == devin_login) author_login

  -- The three filters at the head of `evaluate`.
  unfoldable pub devin_threads : ReviewerAppAdapterInput → List ReviewFeedback
  unfolding is_devin_authored is_informational_devin_body
  devin_threads input =
      filter
        (λ feedback.
          is_devin_authored feedback.author_login
          && not (is_informational_devin_body feedback.body))
        input.unresolved_review_threads

  unfoldable pub devin_comments : ReviewerAppAdapterInput → List CurrentHeadIssueComment
  unfolding is_devin_authored
  devin_comments input =
      filter (λ comment. is_devin_authored comment.author_login) input.current_head_issue_comments

  unfoldable pub devin_reviews : ReviewerAppAdapterInput → List CurrentHeadPullRequestReview
  unfolding is_devin_authored
  devin_reviews input =
      filter (λ review. is_devin_authored review.author_login)
        input.current_head_pull_request_reviews

  -- From the threads, comments, reviews and the latest artifact of the app to its snapshot.
  unfoldable pub devin_snapshot :
      GitHubReviewerAppConfig
      → List PullRequestCheck
      → List ReviewFeedback
      → List CurrentHeadIssueComment
      → List CurrentHeadPullRequestReview
      → Option DevinArtifact
      → ReviewerAppSnapshot
  unfolding check_evidence comment_evidence review_evidence feedback_evidence
  devin_snapshot config checks unresolved_threads comments reviews latest_artifact =
      let has_running_check = has_matching_check checks is_pending in
      let has_completed_check =
        has_matching_check checks is_success || has_matching_check checks is_failure in
      let has_output =
        is_nonempty unresolved_threads || (is_nonempty comments || is_nonempty reviews) in
      let actionable_feedback = unresolved_threads ++ artifact_feedback latest_artifact in
      record {
        reviewer_key = config.key;
        accepted = config.accepted;
        required = config.required;
        coverage =
            if has_output || (has_running_check || has_completed_check)
            then ReviewerAppCoverage.observed
            else ReviewerAppCoverage.missing;
        status =
            if has_running_check
            then ReviewerAppStatus.running
            else if has_output || has_completed_check
            then ReviewerAppStatus.completed
            else ReviewerAppStatus.unknown;
        verdict =
            if is_nonempty unresolved_threads
            then issues_found
            else artifact_verdict latest_artifact;
        actionable_feedback = actionable_feedback;
        unresolved_feedback_ids = map (λ feedback. feedback.id) actionable_feedback;
        evidence =
            map check_evidence (filter (λ check. check.name == devin_check_name) checks)
            ++ (map (comment_evidence js) comments
                ++ (map (review_evidence js) reviews
                    ++ map (feedback_evidence js) unresolved_threads));
      }

  unfoldable pub devin_evaluate :
      GitHubReviewerAppConfig → ReviewerAppAdapterInput → ReviewerAppSnapshot
  unfolding devin_snapshot devin_threads devin_comments devin_reviews latest_recognized_artifact
  devin_evaluate config input =
      let comments = devin_comments input in
      let reviews = devin_reviews input in
      devin_snapshot config input.checks (devin_threads input) comments reviews
        (latest_recognized_artifact comments reviews)
