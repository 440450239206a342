-- ===== src/Tracker/Reviewers/Input.antt =====
-- The types of src/tracker/reviewer-apps.ts: what the adapters of reviewer apps are given. And the
-- small functions that reviewer-app-devin.ts and reviewer-app-legacy.ts both have.
use symphony_ts.Base.{
  String, Bool, true, false, List, [], ◌∷◌, Option, none, some, if◌then◌else◌, leb, string_eq,
}
use symphony_ts.Base.Text.{cat}
use symphony_ts.Base.Lines.{trim}
use symphony_ts.Domain.Handoff.{
  PullRequestCheck, PullRequestCheckStatus, pending, success, failure, ReviewFeedback,
  issue_comment, pull_request_review, review_thread,
}
use symphony_ts.Tracker.Snapshot.{
  ReviewerAppEvidence, ReviewerAppEvidenceKind, ReviewerAppVerdict, pass, issues_found,
}
use symphony_ts.Tracker.TextEngine.{TextEngine, normalize_git_hub_login}

pub record CurrentHeadIssueComment : Type 0 where
  pub id : String
  pub author_login : Option String
  pub body : String
  pub created_at : String
  pub url : String
  pub author_association : String

pub record CurrentHeadPullRequestReview : Type 0 where
  pub id : String
  pub author_login : Option String
  pub body : String
  pub submitted_at : String
  pub url : String

pub record ReviewerAppAdapterInput : Type 0 where
  pub checks : List PullRequestCheck
  pub current_head_issue_comments : List CurrentHeadIssueComment
  pub current_head_pull_request_reviews : List CurrentHeadPullRequestReview
  pub unresolved_review_threads : List ReviewFeedback

abbrev pub is_pending : PullRequestCheckStatus → Bool
is_pending pending = true
is_pending _ = false

abbrev pub is_success : PullRequestCheckStatus → Bool
is_success success = true
is_success _ = false

abbrev pub is_failure : PullRequestCheckStatus → Bool
is_failure failure = true
is_failure _ = false

abbrev status_text : PullRequestCheckStatus → String
status_text pending = "pending"
status_text success = "success"
status_text failure = "failure"

abbrev pub is_pass : ReviewerAppVerdict → Bool
is_pass pass = true
is_pass _ = false

abbrev pub is_issues_found : ReviewerAppVerdict → Bool
is_issues_found issues_found = true
is_issues_found _ = false

unfoldable pub create_issue_comment_feedback : CurrentHeadIssueComment → ReviewFeedback
create_issue_comment_feedback comment = record {
  id = comment.id;
  kind = issue_comment;
  thread_id = none;
  author_login = comment.author_login;
  body = comment.body;
  created_at = comment.created_at;
  url = comment.url;
  path = none;
  line = none;
}

unfoldable pub create_pull_request_review_feedback : CurrentHeadPullRequestReview → ReviewFeedback
create_pull_request_review_feedback review = record {
  id = review.id;
  kind = pull_request_review;
  thread_id = none;
  author_login = review.author_login;
  body = review.body;
  created_at = review.submitted_at;
  url = review.url;
  path = none;
  line = none;
}

unfoldable pub check_evidence : PullRequestCheck → ReviewerAppEvidence
check_evidence check = record {
  id = cat ("check:" ∷ check.name ∷ ":" ∷ status_text check.status ∷ []);
  kind = ReviewerAppEvidenceKind.check;
  created_at = none;
  url = check.details_url;
  summary = cat (check.name ∷ " is " ∷ status_text check.status ∷ []);
}

module _ (js : TextEngine) where
  unfoldable pub summarize_body : String → String
  summarize_body body =
      let normalized = js.with_single_spaces (trim body) in
      if leb (js.code_units normalized) 120
      then normalized
      else cat (js.take_units 117 normalized ∷ "..." ∷ [])

  -- `normalizeDevinBody` and `normalizeBotCommentBody`
  unfoldable pub normalize_body : String → String
  normalize_body body = trim (js.without_html_comments body)

  -- `authorLogin !== null && f(normalizeGitHubLogin(authorLogin))`
  unfoldable pub has_author : (String → Bool) → Option String → Bool
  has_author f none = false
  has_author f (some login) = f (normalize_git_hub_login js login)

  unfoldable pub comment_evidence : CurrentHeadIssueComment → ReviewerAppEvidence
  unfolding summarize_body
  comment_evidence comment = record {
    id = comment.id;
    kind = ReviewerAppEvidenceKind.issue_comment;
    created_at = some comment.created_at;
    url = some comment.url;
    summary = summarize_body comment.body;
  }

  unfoldable pub review_evidence : CurrentHeadPullRequestReview → ReviewerAppEvidence
  unfolding summarize_body
  review_evidence review = record {
    id = review.id;
    kind = ReviewerAppEvidenceKind.pull_request_review;
    created_at = some review.submitted_at;
    url = some review.url;
    summary = summarize_body review.body;
  }

  abbrev evidence_kind : ReviewFeedback → ReviewerAppEvidenceKind
  evidence_kind feedback = elim feedback.kind [
    | review_thread ↦ ReviewerAppEvidenceKind.review_thread
    | issue_comment ↦ ReviewerAppEvidenceKind.issue_comment
    | pull_request_review ↦ ReviewerAppEvidenceKind.pull_request_review
  ]

  unfoldable pub feedback_evidence : ReviewFeedback → ReviewerAppEvidence
  unfolding summarize_body
  feedback_evidence feedback = record {
    id = feedback.id;
    kind = evidence_kind feedback;
    created_at = some feedback.created_at;
    url = some feedback.url;
    summary = summarize_body feedback.body;
  }
