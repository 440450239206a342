-- ===== src/Tracker/PullRequestPolicy/Laws.antt =====
-- Which snapshots await landing, and how an unchanged pull request is seen over several polls.
use symphony_ts.Base.{
  ◌≡◌, ◌≢◌, ◌⊎◌, ◌↔◌, Bool, true, false, [], Option, none, some, arith, ap, string_eq, option_eq,
  option_beq_iff, inr,
}
use text.Mathlib.TextEquality.{eq_iff}
use symphony_ts.Domain.Handoff.{
  HandoffLifecycleKind, HandoffLifecycle, handoff_ready, awaiting_landing, awaiting_landing_command,
  awaiting_system_checks, rework_required, no_blocking_verdict, not_required, satisfied,
}
use symphony_ts.Domain.Handoff
use symphony_ts.Tracker.Snapshot.{PullRequestSnapshot, open_pr, merged}
use symphony_ts.Tracker.PullRequestPolicy.{
  has_bad_merge_state, NoCheckObservation, evaluate_pull_request_lifecycle, evaluate_waiting,
  evaluate_review_coverage, evaluate_mergeability, needs_rework, rework_result, checks_result,
  saw_same_no_check_lifecycle, observation_of,
}

abbrev pub is_landing : HandoffLifecycleKind → Bool
is_landing awaiting_landing = true
is_landing awaiting_landing_command = true
is_landing _ = false

abbrev pub is_handed_off : HandoffLifecycleKind → Bool
is_handed_off handoff_ready = true
is_handed_off _ = false

-- A green pull request, as far as its checks are not concerned.
pub record IsGreen (s : PullRequestSnapshot) : Type 0 where
  pub unmerged : s.landing_state ≡ open_pr
  pub verdict : s.reviewer_verdict ≡ no_blocking_verdict
  pub no_bot_feedback : s.bot_actionable_review_feedback ≡ []
  pub none_failing : s.failing_check_names ≡ []
  pub none_pending : s.pending_check_names ≡ []
  pub reviewed :
      (s.required_reviewer_state ≡ not_required) ⊎ (s.required_reviewer_state ≡ satisfied)
  pub no_feedback : s.actionable_review_feedback ≡ []
  pub not_draft : s.draft ≡ false
  pub can_merge : s.mergeable ≡ some true
  pub passing : has_bad_merge_state s.merge_state_status ≡ false

-- There are checks, or the pull request was seen without checks before, at the same commit.
abbrev pub HasSettledChecks : PullRequestSnapshot → Option NoCheckObservation → Type 0
HasSettledChecks s previous = (s.checks ≢ []) ⊎ (previous ≡ some (observation_of s))

pub saw_same_iff :
    (previous : Option NoCheckObservation) (s : PullRequestSnapshot)
    → (saw_same_no_check_lifecycle previous s ≡ true) ↔ (previous ≡ some (observation_of s))
unfolding saw_same_no_check_lifecycle
saw_same_iff none s = (λ h. cc, λ h. cc)
saw_same_iff (some p) s = (
  λ h. ground (
    arith,
    eq_iff p.url s.pull_request.url,
    option_beq_iff p.latest_commit_at s.pull_request.latest_commit_at,
  ),
  λ h. ground (
    arith,
    eq_iff p.url s.pull_request.url,
    option_beq_iff p.latest_commit_at s.pull_request.latest_commit_at,
  ),
)

record IsMergeable (s : PullRequestSnapshot) : Type 0 where
  not_draft : s.draft ≡ false
  can_merge : s.mergeable ≡ some true
  passing : has_bad_merge_state s.merge_state_status ≡ false

mergeability_iff :
    (s : PullRequestSnapshot) (previous : Option NoCheckObservation)
    → (is_landing (evaluate_mergeability s previous).lifecycle.kind ≡ true) ↔ IsMergeable s
unfolding evaluate_mergeability
mergeability_iff s previous = (λ h. ground arith, λ h. ground arith)

record IsCovered (s : PullRequestSnapshot) (previous : Option NoCheckObservation) : Type 0 where
  mergeable : IsMergeable s
  settled : HasSettledChecks s previous
  reviewed :
      (s.required_reviewer_state ≢ Handoff.missing) × (s.required_reviewer_state ≢ Handoff.unknown)

coverage_iff :
    (s : PullRequestSnapshot) (previous : Option NoCheckObservation)
    → (is_landing (evaluate_review_coverage s previous).lifecycle.kind ≡ true)
      ↔ IsCovered s previous
unfolding evaluate_review_coverage
coverage_iff s previous = (
  λ h.
      let (to, from) = mergeability_iff s previous in
      let (same, other) = saw_same_iff previous s in ground (arith, to, from, same, other),
  λ c.
      let (to, from) = mergeability_iff s previous in
      let (same, other) = saw_same_iff previous s in ground (arith, to, from, same, other),
)

record IsQuiet (s : PullRequestSnapshot) (previous : Option NoCheckObservation) : Type 0 where
  none_failing : s.failing_check_names ≡ []
  none_pending : s.pending_check_names ≡ []
  idle : s.required_reviewer_state ≢ Handoff.running
  no_feedback : s.actionable_review_feedback ≡ []
  covered : IsCovered s previous

waiting_iff :
    (s : PullRequestSnapshot) (previous : Option NoCheckObservation)
    → (is_landing (evaluate_waiting s previous).lifecycle.kind ≡ true) ↔ IsQuiet s previous
unfolding evaluate_waiting checks_result
waiting_iff s previous = (
  λ h. let (to, from) = coverage_iff s previous in ground (arith, to, from),
  λ c. let (to, from) = coverage_iff s previous in ground (arith, to, from),
)

-- A pull request awaits landing, or the landing command, exactly when it is open, no draft,
-- mergeable in a passing merge state, with no blocking reviewer verdict, no actionable feedback, no
-- failing or pending check, its required reviewer apps satisfied or none required, and when its
-- checks are settled: it has some, or the observation kept from before is of the same pull request
-- without checks at the same commit.
pub landing_iff :
    (s : PullRequestSnapshot) (previous : Option NoCheckObservation)
    → (is_landing (evaluate_pull_request_lifecycle s previous).lifecycle.kind ≡ true)
      ↔ (IsGreen s × HasSettledChecks s previous)
unfolding evaluate_pull_request_lifecycle needs_rework rework_result
landing_iff s previous = (
  λ h. let (to, from) = waiting_iff s previous in ground (arith, to, from),
  λ c. let (to, from) = waiting_iff s previous in ground (arith, to, from),
)

merged_stays :
    (s : PullRequestSnapshot) (previous : Option NoCheckObservation)
    → ¬ (is_handed_off (evaluate_waiting s previous).lifecycle.kind ≡ true)
unfolding evaluate_waiting checks_result evaluate_review_coverage evaluate_mergeability
merged_stays s previous h = ground arith

-- The lifecycle is `handoff_ready` exactly when the pull request has merged, whatever the other
-- fields of the snapshot and the kept observation are.
pub handoff_ready_iff :
    (s : PullRequestSnapshot) (previous : Option NoCheckObservation)
    → (is_handed_off (evaluate_pull_request_lifecycle s previous).lifecycle.kind ≡ true)
      ↔ (s.landing_state ≡ merged)
unfolding evaluate_pull_request_lifecycle needs_rework rework_result
handoff_ready_iff s previous =
    (λ h. let never = merged_stays s previous in ground (arith, never), λ m. ground arith)

landing_forgets_mergeability :
    (s : PullRequestSnapshot) (previous : Option NoCheckObservation)
    → is_landing (evaluate_mergeability s previous).lifecycle.kind ≡ true
    → (evaluate_mergeability s previous).next_no_check_observation ≡ none
unfolding evaluate_mergeability
landing_forgets_mergeability s previous h = ground arith

landing_forgets_waiting :
    (s : PullRequestSnapshot) (previous : Option NoCheckObservation)
    → is_landing (evaluate_waiting s previous).lifecycle.kind ≡ true
    → (evaluate_waiting s previous).next_no_check_observation ≡ none
unfolding evaluate_waiting checks_result evaluate_review_coverage
landing_forgets_waiting s previous h =
    let later = landing_forgets_mergeability s previous in ground (arith, later)

-- A pull request that awaits landing leaves no observation for the next poll.
landing_forgets :
    (s : PullRequestSnapshot) (previous : Option NoCheckObservation)
    → is_landing (evaluate_pull_request_lifecycle s previous).lifecycle.kind ≡ true
    → (evaluate_pull_request_lifecycle s previous).next_no_check_observation ≡ none
unfolding evaluate_pull_request_lifecycle needs_rework rework_result
landing_forgets s previous h =
    let later = landing_forgets_waiting s previous in ground (arith, later)

unseen_waits :
    (s : PullRequestSnapshot)
    → IsGreen s
    → s.checks ≡ []
    → ((evaluate_pull_request_lifecycle s none).lifecycle.kind ≡ awaiting_system_checks)
      × ((evaluate_pull_request_lifecycle s none).next_no_check_observation
          ≡ some (observation_of s))
unfolding evaluate_pull_request_lifecycle needs_rework rework_result evaluate_waiting checks_result
    evaluate_review_coverage saw_same_no_check_lifecycle
unseen_waits s green empty = ground arith

-- For a green pull request without checks, that is unchanged from one poll to the next two and of
-- which no observation was kept: the first poll waits for checks and keeps an observation, the
-- second finds that the pull request awaits landing and keeps none, and the third, which is the
-- first again, waits for checks once more.
pub no_checks_alternate :
    (s : PullRequestSnapshot)
    → IsGreen s
    → s.checks ≡ []
    → let first = evaluate_pull_request_lifecycle s none in
      let second = evaluate_pull_request_lifecycle s first.next_no_check_observation in
      let third = evaluate_pull_request_lifecycle s second.next_no_check_observation in
      (first.lifecycle.kind ≡ awaiting_system_checks)
      × ((is_landing second.lifecycle.kind ≡ true) × (third ≡ first))
no_checks_alternate s green empty =
    let (waits, keeps) = unseen_waits s green empty in
    let (_, from) =
      landing_iff s (evaluate_pull_request_lifecycle s none).next_no_check_observation in
    let lands = from (green, inr keeps) in
    (waits, (lands, ap (evaluate_pull_request_lifecycle s) (landing_forgets s _ lands)))
