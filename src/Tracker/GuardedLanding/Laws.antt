-- ===== src/Tracker/GuardedLanding/Laws.antt =====
-- When a landing is requested, and that the lifecycle policy and the landing gate agree.
use symphony_ts.Base.{
  String, ◌≡◌, ap, beq_refl, ◌⊎◌, refl, Bool, true, false, not, [], Option, none, some, arith,
  string_eq, ◌↔◌, filter,
}
use symphony_ts.Domain.Handoff.{no_blocking_verdict, not_required, satisfied}
use symphony_ts.Tracker.Snapshot.{PullRequestSnapshot, open_pr}
use symphony_ts.Tracker.PullRequestPolicy.{
  has_bad_merge_state, NoCheckObservation, evaluate_pull_request_lifecycle,
}
use symphony_ts.Tracker.PullRequestPolicy.Laws.{is_landing, landing_iff}
use symphony_ts.Tracker.GuardedLanding.{
  GuardedLandingSnapshot, LandingExecutionResult, requested, blocked, differ, evaluate_reviews,
  evaluate_guarded_landing, gate_snapshot,
}

-- All that a landing needs.
pub record IsLandable (s : GuardedLandingSnapshot) : Type 0 where
  pub unmerged : s.landing_state ≡ open_pr
  pub same_head : differ s.approved_head_sha s.pull_request.head_sha ≡ false
  pub not_draft : s.draft ≡ false
  pub can_merge : s.mergeable ≡ some true
  pub none_failing : s.failing_check_names ≡ []
  pub none_pending : s.pending_check_names ≡ []
  pub passing : has_bad_merge_state s.merge_state_status ≡ false
  pub verdict : s.reviewer_verdict ≡ no_blocking_verdict
  pub no_feedback : s.bot_actionable_review_feedback ≡ []
  pub no_threads : s.unresolved_review_thread_count ≡ 0
  pub reviewed :
      (s.required_reviewer_state ≡ not_required) ⊎ (s.required_reviewer_state ≡ satisfied)

abbrev pub is_requested : LandingExecutionResult → Bool
is_requested (requested summary) = true
is_requested (blocked reason kind summary) = false

pub record IsReviewed (s : GuardedLandingSnapshot) : Type 0 where
  pub verdict : s.reviewer_verdict ≡ no_blocking_verdict
  pub no_feedback : s.bot_actionable_review_feedback ≡ []
  pub no_threads : s.unresolved_review_thread_count ≡ 0
  pub reviewed :
      (s.required_reviewer_state ≡ not_required) ⊎ (s.required_reviewer_state ≡ satisfied)

reviews→IsReviewed :
    (s : GuardedLandingSnapshot) → is_requested (evaluate_reviews s) ≡ true → IsReviewed s
unfolding evaluate_reviews
reviews→IsReviewed s h = ground arith

IsReviewed→reviews :
    (s : GuardedLandingSnapshot) → IsReviewed s → is_requested (evaluate_reviews s) ≡ true
unfolding evaluate_reviews
IsReviewed→reviews s h = ground arith

-- A landing is requested exactly when the pull request is open, its approved head is not known to be
-- stale, it is no draft, GitHub reports it mergeable in a passing merge state, no check fails or is
-- pending, no reviewer app blocks, no bot feedback and no unresolved review thread is left, and the
-- required reviewer apps are satisfied or there are none. Otherwise it is blocked.
pub evaluate_guarded_landing_iff :
    (s : GuardedLandingSnapshot) → (is_requested (evaluate_guarded_landing s) ≡ true) ↔ IsLandable s
unfolding evaluate_guarded_landing
evaluate_guarded_landing_iff s = (
  λ h. let r : IsReviewed s = reviews→IsReviewed s (ground arith) in ground arith,
  λ l. ground (arith, IsReviewed→reviews s (ground arith)),
)

same_head : (head : Option String) → differ head head ≡ false
same_head none = refl
same_head (some head) = ap not (beq_refl head)

-- Where the lifecycle policy finds that a pull request awaits landing or its command, the gate at
-- the snapshot's own head and mergeability requests the landing, whichever authors are review bots.
pub landing-requested :
    (is_bot : Option String → Bool) (s : PullRequestSnapshot) (previous : Option NoCheckObservation)
    → is_landing (evaluate_pull_request_lifecycle s previous).lifecycle.kind ≡ true
    → is_requested (
        evaluate_guarded_landing
          (gate_snapshot is_bot s s.pull_request.head_sha s.mergeable s.merge_state_status s.draft))
      ≡ true
unfolding gate_snapshot filter
landing-requested is_bot s previous h =
    let (to, _) = landing_iff s previous in
    let (green, _) = to h in
    let (_, from) =
      evaluate_guarded_landing_iff
        (gate_snapshot is_bot s s.pull_request.head_sha s.mergeable s.merge_state_status s.draft) in
    from record {
      unmerged = green.unmerged;
      same_head = same_head s.pull_request.head_sha;
      not_draft = green.not_draft;
      can_merge = green.can_merge;
      none_failing = green.none_failing;
      none_pending = green.none_pending;
      passing = green.passing;
      verdict = green.verdict;
      no_feedback = green.no_bot_feedback;
      no_threads = rw green.no_feedback refl;
      reviewed = green.reviewed;
    }
