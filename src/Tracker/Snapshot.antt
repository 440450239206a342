-- ===== src/Tracker/Snapshot.antt =====
-- `PullRequestSnapshot` of src/tracker/pull-request-snapshot.ts and the reviewer apps of
-- src/tracker/reviewer-app-types.ts: what the tracker observed of a pull request.
use symphony_ts.Base.{String, Bool, Option, List}
use symphony_ts.Domain.Handoff.{
  PullRequestHandle, PullRequestCheck, LandingCommandObservation, ReviewFeedback,
  PullRequestReviewerVerdict, PullRequestRequiredReviewerState,
}

pub data ReviewerAppCoverage : Type 0 where
  missing observed : ReviewerAppCoverage

pub data ReviewerAppStatus : Type 0 where
  running completed unknown : ReviewerAppStatus

pub data ReviewerAppVerdict : Type 0 where
  pass issues_found unknown : ReviewerAppVerdict

pub data ReviewerAppEvidenceKind : Type 0 where
  check issue_comment review_thread pull_request_review : ReviewerAppEvidenceKind

pub record ReviewerAppEvidence : Type 0 where
  pub id : String
  pub kind : ReviewerAppEvidenceKind
  pub created_at : Option String
  pub url : Option String
  pub summary : String

pub record ReviewerAppSnapshot : Type 0 where
  pub reviewer_key : String
  pub accepted : Bool
  pub required : Bool
  pub coverage : ReviewerAppCoverage
  pub status : ReviewerAppStatus
  pub verdict : ReviewerAppVerdict
  pub actionable_feedback : List ReviewFeedback
  pub unresolved_feedback_ids : List String
  pub evidence : List ReviewerAppEvidence

pub data LandingState : Type 0 where
  open_pr merged : LandingState

pub record PullRequestSnapshot : Type 0 where
  pub branch_name : String
  pub pull_request : PullRequestHandle
  pub landing_state : LandingState
  pub draft : Bool
  pub mergeable : Option Bool
  pub merge_state_status : Option String
  pub has_landing_command : Bool
  pub landing_command : Option LandingCommandObservation
  pub checks : List PullRequestCheck
  pub pending_check_names : List String
  pub failing_check_names : List String
  pub actionable_review_feedback : List ReviewFeedback
  pub bot_actionable_review_feedback : List ReviewFeedback
  pub unresolved_thread_ids : List String
  pub reviewer_apps : List ReviewerAppSnapshot
  pub reviewer_verdict : PullRequestReviewerVerdict
  pub blocking_reviewer_keys : List String
  pub required_reviewer_state : PullRequestRequiredReviewerState
  pub observed_reviewer_keys : List String
