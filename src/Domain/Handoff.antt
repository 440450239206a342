-- ===== src/Domain/Handoff.antt =====
-- src/domain/handoff.ts: the lifecycle of an issue's handoff through its pull request.
use symphony_ts.Base.{ℕ, String, Option, List}

pub data HandoffLifecycleKind : Type 0 where
  missing_target awaiting_human_handoff awaiting_human_review : HandoffLifecycleKind
  awaiting_system_checks degraded_review_infrastructure : HandoffLifecycleKind
  awaiting_landing_command awaiting_landing rework_required handoff_ready : HandoffLifecycleKind

pub data PullRequestCheckStatus : Type 0 where
  pending success failure : PullRequestCheckStatus

pub data PullRequestReviewerVerdict : Type 0 where
  no_blocking_verdict blocking_issues_found : PullRequestReviewerVerdict

pub data PullRequestRequiredReviewerState : Type 0 where
  not_required running missing unknown satisfied : PullRequestRequiredReviewerState

-- `merged_at` is optional and nullable: both absences are `none`.
pub record PullRequestHandle : Type 0 where
  pub number : ℕ
  pub url : String
  pub branch_name : String
  pub head_sha : Option String
  pub latest_commit_at : Option String
  pub merged_at : Option String

pub record PullRequestCheck : Type 0 where
  pub name : String
  pub status : PullRequestCheckStatus
  pub conclusion : Option String
  pub details_url : Option String

pub record LandingCommandObservation : Type 0 where
  pub comment_id : String
  pub author_login : Option String
  pub observed_at : String
  pub url : String

pub data ReviewFeedbackKind : Type 0 where
  review_thread issue_comment pull_request_review : ReviewFeedbackKind

pub record ReviewFeedback : Type 0 where
  pub id : String
  pub kind : ReviewFeedbackKind
  pub thread_id : Option String
  pub author_login : Option String
  pub body : String
  pub created_at : String
  pub url : String
  pub path : Option String
  pub line : Option ℕ

pub record HandoffLifecycle : Type 0 where
  pub kind : HandoffLifecycleKind
  pub branch_name : String
  pub pull_request : Option PullRequestHandle
  pub landing_command : Option LandingCommandObservation
  pub checks : List PullRequestCheck
  pub pending_check_names : List String
  pub failing_check_names : List String
  pub actionable_review_feedback : List ReviewFeedback
  pub unresolved_thread_ids : List String
  pub reviewer_verdict : PullRequestReviewerVerdict
  pub blocking_reviewer_keys : List String
  pub required_reviewer_state : PullRequestRequiredReviewerState
  pub summary : String
