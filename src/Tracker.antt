-- ===== src/Tracker.antt =====
-- What the trackers make of an issue's pull request, from src/tracker.
pub mod TextEngine
pub mod Snapshot
pub mod Reviewers
pub mod SnapshotCreation
pub mod PullRequestPolicy
pub mod GuardedLanding
pub mod ReadyPromotion
pub mod PlanReview
pub mod Linear
