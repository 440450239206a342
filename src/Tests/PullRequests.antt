-- ===== src/Tests/PullRequests.antt =====
-- Green pull requests, with a check and without one.
use symphony_ts.Base.{String, ◌≡◌, ◌↔◌, inl, refl, Bool, true, false, [], ◌∷◌, Option, none, some}
use symphony_ts.Base.Sets.{contains}
use symphony_ts.Domain.Handoff.{awaiting_system_checks}
use symphony_ts.Tracker.Snapshot.{PullRequestSnapshot, merged}
use symphony_ts.Tracker.PullRequestPolicy.{
  evaluate_pull_request_lifecycle, has_bad_merge_state, is_passing_merge_state,
}
use symphony_ts.Tracker.PullRequestPolicy.Laws.{
  is_landing, is_handed_off, IsGreen, HasSettledChecks, landing_iff, handoff_ready_iff,
  no_checks_alternate,
}
use symphony_ts.Tracker.GuardedLanding.{
  evaluate_guarded_landing, gate_snapshot, GuardedLandingSnapshot,
}
use symphony_ts.Tracker.GuardedLanding.Laws.{
  is_requested, IsLandable, evaluate_guarded_landing_iff, landing-requested,
}
use symphony_ts.Tests.Data.{green_with, green_check}

abbrev checked : PullRequestSnapshot
checked = green_with (green_check ∷ [])

abbrev unchecked : PullRequestSnapshot
unchecked = green_with []

clean_passes : has_bad_merge_state (some "clean") ≡ false
unfolding has_bad_merge_state is_passing_merge_state contains
clean_passes = refl

unchecked-IsGreen : IsGreen unchecked
unchecked-IsGreen = record {
  unmerged = refl;
  verdict = refl;
  no_bot_feedback = refl;
  none_failing = refl;
  none_pending = refl;
  reviewed = inl refl;
  no_feedback = refl;
  not_draft = refl;
  can_merge = refl;
  passing = clean_passes;
}

checked_lands : is_landing (evaluate_pull_request_lifecycle checked none).lifecycle.kind ≡ true
unfolding evaluate_pull_request_lifecycle contains is_passing_merge_state
checked_lands = refl

landing_iff_example :
    (is_landing (evaluate_pull_request_lifecycle checked none).lifecycle.kind ≡ true)
    ↔ (IsGreen checked × HasSettledChecks checked none)
landing_iff_example = landing_iff checked none

handoff_ready_iff_example :
    (is_handed_off (evaluate_pull_request_lifecycle checked none).lifecycle.kind ≡ true)
    ↔ (checked.landing_state ≡ merged)
handoff_ready_iff_example = handoff_ready_iff checked none

no_checks_alternate_example :
    let first = evaluate_pull_request_lifecycle unchecked none in
    let second = evaluate_pull_request_lifecycle unchecked first.next_no_check_observation in
    let third = evaluate_pull_request_lifecycle unchecked second.next_no_check_observation in
    (first.lifecycle.kind ≡ awaiting_system_checks)
    × ((is_landing second.lifecycle.kind ≡ true) × (third ≡ first))
no_checks_alternate_example = no_checks_alternate unchecked unchecked-IsGreen refl

abbrev no_bots : Option String → Bool
no_bots _ = false

abbrev gate : GuardedLandingSnapshot
unfolding gate_snapshot
gate = gate_snapshot no_bots checked (some "abc") (some true) (some "clean") false

evaluate_guarded_landing_iff_example :
    (is_requested (evaluate_guarded_landing gate) ≡ true) ↔ IsLandable gate
evaluate_guarded_landing_iff_example = evaluate_guarded_landing_iff gate

landing-requested_example :
    is_requested (
      evaluate_guarded_landing (
        gate_snapshot no_bots checked checked.pull_request.head_sha checked.mergeable
          checked.merge_state_status checked.draft))
    ≡ true
landing-requested_example = landing-requested no_bots checked none checked_lands
