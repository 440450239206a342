-- ===== src/Tracker/PullRequestPolicy/Command.antt =====
-- Landing is awaited only where the landing command was observed.
use symphony_ts.Base.{◌≡◌, true, Option, arith}
use symphony_ts.Domain.Handoff.{awaiting_landing}
use symphony_ts.Tracker.Snapshot.{PullRequestSnapshot}
use symphony_ts.Tracker.PullRequestPolicy.{
  NoCheckObservation, evaluate_pull_request_lifecycle, evaluate_waiting, evaluate_review_coverage,
  evaluate_mergeability, needs_rework, rework_result, checks_result,
}

module _ (s : PullRequestSnapshot) (previous : Option NoCheckObservation) where
  mergeability-command :
      (evaluate_mergeability s previous).lifecycle.kind ≡ awaiting_landing
      → s.has_landing_command ≡ true
  unfolding evaluate_mergeability
  mergeability-command h = ground arith

  coverage-command :
      (evaluate_review_coverage s previous).lifecycle.kind ≡ awaiting_landing
      → s.has_landing_command ≡ true
  unfolding evaluate_review_coverage
  coverage-command h = ground (arith, mergeability-command)

  waiting-command :
      (evaluate_waiting s previous).lifecycle.kind ≡ awaiting_landing → s.has_landing_command ≡ true
  unfolding evaluate_waiting checks_result
  waiting-command h = ground (arith, coverage-command)

  pub lifecycle-command :
      (evaluate_pull_request_lifecycle s previous).lifecycle.kind ≡ awaiting_landing
      → s.has_landing_command ≡ true
  unfolding evaluate_pull_request_lifecycle needs_rework rework_result
  lifecycle-command h = ground (arith, waiting-command)
