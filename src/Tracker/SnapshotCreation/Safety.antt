-- ===== src/Tracker/SnapshotCreation/Safety.antt =====
-- What must have been observed of a pull request for it to await landing.
use symphony_ts.Base.{
  ◌≡◌, ◌⊎◌, inl, inr, refl, sym, subst, ◌∙◌, Bool, true, false, ◌&&◌, List, [], ◌∷◌, ◌++◌, any,
  Option, some, arith, All, All-map, All-any_none, is_nonempty-filter, is_nonempty-map, filter,
}
use symphony_ts.Domain.Handoff.{
  no_blocking_verdict, awaiting_landing, success, satisfied, not_required, ReviewFeedback,
}
use symphony_ts.Tracker.Snapshot.{PullRequestSnapshot, ReviewerAppSnapshot, open_pr}
use symphony_ts.Tracker.PullRequestPolicy.{evaluate_pull_request_lifecycle, NoCheckObservation}
use symphony_ts.Tracker.PullRequestPolicy.Laws.{IsGreen, landing_iff, is_landing}
use symphony_ts.Tracker.PullRequestPolicy.Command.{lifecycle-command}
use symphony_ts.Tracker.TextEngine.{TextEngine}
use symphony_ts.Tracker.Reviewers.{
  create_reviewer_app_snapshots, blocking_keys, get_configured_reviewer_app_logins,
  evaluate_reviewer_verdict, evaluate_required_reviewer_state,
}
use symphony_ts.Tracker.Reviewers.Laws.{IsSettled, required_state_lem}
use symphony_ts.Tracker.Reviewers.Input.{is_issues_found}
use symphony_ts.Tracker.Reviewers.Devin.{first_of}
use symphony_ts.Tracker.SnapshotCreation.{
  SnapshotInput, create_pull_request_snapshot, snapshot_with, adapter_input, is_after,
  is_landing_command, has_mergeability_fields, unresolved_threads, bot_feedback, human_threads,
}
use symphony_ts.Tracker.SnapshotCreation.Laws.{snapshot-with}
use symphony_ts.Tracker.SnapshotCreation.Landing.{
  is_open_question, green-All, human_threads-All, found_command,
}

-- An accepted app that found no issues, or an app that is not accepted.
abbrev pub is_objecting : ReviewerAppSnapshot → Bool
is_objecting r = r.accepted && is_issues_found r.verdict

pub record MayLand (js : TextEngine) (input : SnapshotInput) (apps : List ReviewerAppSnapshot)
    : Type 0 where
  pub unmerged : input.pull_request.landing_state ≡ open_pr
  pub not_draft : input.pull_request.draft ≡ some false
  pub mergeable : input.pull_request.mergeable ≡ some (some true)
  pub green : All (λ check. check.status ≡ success) input.checks
  pub settled : All IsSettled apps
  pub unopposed : All (λ r. is_objecting r ≡ false) apps
  pub answered :
      All
        (λ thread.
          is_open_question js (get_configured_reviewer_app_logins js input.reviewers) thread
          ≡ false)
        input.review_state.review_threads
  pub commanded :
      any
        (λ comment.
          is_after js comment.created_at (first_of input.review_state.commits)
          && is_landing_command js (get_configured_reviewer_app_logins js input.reviewers) comment)
        input.review_state.comments
      ≡ true

reviewed-All :
    (apps : List ReviewerAppSnapshot)
    → (evaluate_required_reviewer_state apps ≡ not_required)
      ⊎ (evaluate_required_reviewer_state apps ≡ satisfied)
    → All IsSettled apps
reviewed-All apps h =
    let states = required_state_lem apps in
    elim h [
      | inl free ↦
          All-map _ IsSettled (λ r e. record { idle = λ q. cc; seen = λ q. cc; passed = λ q. cc })
            apps (states.unneeded.0 free)
      | inr done ↦ (states.settled.0 done).1
    ]

green-mergeable :
    (js : TextEngine) (input : SnapshotInput) (threads : List ReviewFeedback)
    → (snapshot_with js input threads).mergeable ≡ some true
    → (snapshot_with js input threads).draft ≡ false
    → (input.pull_request.draft ≡ some false) × (input.pull_request.mergeable ≡ some (some true))
unfolding snapshot_with has_mergeability_fields
green-mergeable js input threads m d = (ground arith, ground arith)

unopposed-All :
    (apps : List ReviewerAppSnapshot)
    → (evaluate_reviewer_verdict apps).verdict ≡ no_blocking_verdict
    → All (λ r. is_objecting r ≡ false) apps
unfolding evaluate_reviewer_verdict blocking_keys
unopposed-All apps h = All-any_none is_objecting apps (
    sym (is_nonempty-filter is_objecting apps)
    ∙ (sym
          (is_nonempty-map (λ (r : ReviewerAppSnapshot). r.reviewer_key) (filter is_objecting apps))
        ∙ ground arith))

left_empty : {A : Type 0} (xs ys : List A) → xs ++ ys ≡ [] → xs ≡ []
left_empty [] ys h = refl
left_empty (x ∷ xs) ys h = cc

landing_with :
    (js : TextEngine) (input : SnapshotInput) (threads : List ReviewFeedback)
    → unresolved_threads input.review_state ≡ some threads
    → IsGreen (snapshot_with js input threads)
    → (snapshot_with js input threads).has_landing_command ≡ true
    → MayLand js input (snapshot_with js input threads).reviewer_apps
unfolding snapshot_with unresolved_threads
landing_with js input threads e green command =
    let logins = get_configured_reviewer_app_logins js input.reviewers in
    let apps = create_reviewer_app_snapshots js input.reviewers (adapter_input js input threads) in
    let (draft, merge) = green-mergeable js input threads green.can_merge green.not_draft in
    record {
      unmerged = green.unmerged;
      not_draft = draft;
      mergeable = merge;
      green = green-All input.checks green.none_pending green.none_failing;
      settled = reviewed-All apps green.reviewed;
      unopposed = unopposed-All apps green.verdict;
      answered = human_threads-All js logins input.review_state.review_threads threads e (
          subst (λ bots. human_threads js logins bots threads ≡ []) green.no_bot_feedback
            (left_empty _ (bot_feedback apps) green.no_feedback));
      commanded = (found_command js logins input.review_state command).1;
    }

-- Where a snapshot is made of a pull request and its lifecycle awaits landing, whatever the
-- observation kept from before: the pull request is open, no draft, and mergeable; all its checks
-- have succeeded; each required reviewer app is not running, was observed and passed; no accepted app
-- found issues; no live review thread was begun by anyone but a configured reviewer app; and after
-- the latest commit a comment of a qualifying author gives the landing command.
pub created-MayLand :
    (js : TextEngine) (input : SnapshotInput) (previous : Option NoCheckObservation)
    {s : PullRequestSnapshot}
    → create_pull_request_snapshot js input ≡ some s
    → (evaluate_pull_request_lifecycle s previous).lifecycle.kind ≡ awaiting_landing
    → MayLand js input s.reviewer_apps
created-MayLand js input previous {s} made kind =
    let (threads, e, same) = snapshot-with js input made in
    let lands = (landing_iff s previous).0 (subst (λ k. is_landing k ≡ true) (sym kind) refl) in
    subst (λ t. MayLand js input t.reviewer_apps) same
      (landing_with js input threads e (subst IsGreen (sym same) lands.0)
        (subst (λ t. t.has_landing_command ≡ true) (sym same) (lifecycle-command s previous kind)))
