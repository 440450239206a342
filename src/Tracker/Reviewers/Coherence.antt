-- ===== src/Tracker/Reviewers/Coherence.antt =====
-- The snapshots that the adapters make are coherent: the verdict agrees with the feedback.
use symphony_ts.Base.{
  ◌≡◌, refl, String, true, false, not, ◌&&◌, List, [], ◌∷◌, map, filter, Option, none, some, arith,
  All, All-append, Bool-cases, inl, inr, is_nonempty, is_nonempty-append, is_nonempty-empty, ◌==◌,
  string_eq,
}
use symphony_ts.Base.Sort.{sort_by}
use symphony_ts.Domain.Handoff.{ReviewFeedback, PullRequestCheck}
use symphony_ts.Domain.Workflow.{GitHubReviewerAppConfig}
use symphony_ts.Tracker.Snapshot.{ReviewerAppSnapshot, ReviewerAppVerdict}
use symphony_ts.Tracker.TextEngine.{TextEngine}
use symphony_ts.Tracker.Reviewers.Input.{
  ReviewerAppAdapterInput, CurrentHeadIssueComment, CurrentHeadPullRequestReview, is_issues_found,
}
use symphony_ts.Tracker.Reviewers.Devin.{
  devin_evaluate, devin_snapshot, latest_recognized_artifact, DevinArtifact, artifact_feedback,
  artifact_verdict, devin_threads, devin_comments, devin_reviews,
}
use symphony_ts.Tracker.Reviewers.Legacy.{legacy_snapshot, create_legacy_reviewer_app_snapshot}
use symphony_ts.Tracker.Reviewers.{
  ReviewerConfig, is_coverage_missing, create_reviewer_app_snapshots, explicit_snapshots,
  reviewer_app_adapter, handled_logins, unhandled,
}

-- Issues are found exactly where there is actionable feedback, the open ids are those of the
-- feedback, and what was not observed has no verdict.
pub record IsCoherent (r : ReviewerAppSnapshot) : Type 0 where
  pub judged : is_issues_found r.verdict ≡ is_nonempty r.actionable_feedback
  pub listed : r.unresolved_feedback_ids ≡ map (λ feedback. feedback.id) r.actionable_feedback
  pub unseen : is_coverage_missing r.coverage ≡ true → r.verdict ≡ ReviewerAppVerdict.unknown

module _ (js : TextEngine) where
  artifact-feedback :
      (latest : Option DevinArtifact)
      → is_nonempty (artifact_feedback latest) ≡ is_issues_found (artifact_verdict latest)
  artifact-feedback none = refl
  artifact-feedback (some entry) = ground arith

  no_artifact : latest_recognized_artifact js [] [] ≡ none
  unfolding latest_recognized_artifact filter sort_by
  no_artifact = refl

  devin_snapshot-IsCoherent :
      (config : GitHubReviewerAppConfig) (checks : List PullRequestCheck)
      (threads : List ReviewFeedback) (comments : List CurrentHeadIssueComment)
      (reviews : List CurrentHeadPullRequestReview) (latest : Option DevinArtifact)
      → (is_nonempty comments ≡ false → is_nonempty reviews ≡ false → latest ≡ none)
      → IsCoherent (devin_snapshot js config checks threads comments reviews latest)
  unfolding devin_snapshot
  devin_snapshot-IsCoherent config checks threads comments reviews latest silent = record {
    judged =
        ground
          (arith, is_nonempty-append threads (artifact_feedback latest), artifact-feedback latest);
    listed = refl;
    unseen = λ h. ground (arith, silent);
  }

  devin_evaluate-IsCoherent :
      (config : GitHubReviewerAppConfig) (input : ReviewerAppAdapterInput)
      → IsCoherent (devin_evaluate js config input)
  unfolding devin_evaluate
  devin_evaluate-IsCoherent config input =
      devin_snapshot-IsCoherent config input.checks (devin_threads js input)
        (devin_comments js input) (devin_reviews js input) _
        (λ c r. rw (is_nonempty-empty _ c, is_nonempty-empty _ r) no_artifact)

  explicit-IsCoherent :
      (configs : List GitHubReviewerAppConfig) (input : ReviewerAppAdapterInput)
      → All IsCoherent (explicit_snapshots js configs input)
  unfolding explicit_snapshots reviewer_app_adapter
  explicit-IsCoherent [] input = tt
  explicit-IsCoherent (config ∷ rest) input = elim (Bool-cases (config.key == "devin")) [
    | inl e ↦ rw e (devin_evaluate-IsCoherent config input, explicit-IsCoherent rest input)
    | inr e ↦ rw e (explicit-IsCoherent rest input)
  ]

  legacy_snapshot-IsCoherent :
      (bots approved : List String) (input : ReviewerAppAdapterInput)
      → IsCoherent (legacy_snapshot js bots approved input)
  unfolding legacy_snapshot
  legacy_snapshot-IsCoherent bots approved input = record {
    judged = ground arith;
    listed = refl;
    unseen = λ h. ground arith;
  }

  -- For every configuration and input, each snapshot of a reviewer app that is created is coherent:
  -- its verdict is that issues were found exactly when it has actionable feedback, its unresolved
  -- ids are those of that feedback in order, and where its coverage is missing its verdict is
  -- unknown.
  pub create_reviewer_app_snapshots-IsCoherent :
      (config : ReviewerConfig) (input : ReviewerAppAdapterInput)
      → All IsCoherent (create_reviewer_app_snapshots js config input)
  unfolding create_reviewer_app_snapshots create_legacy_reviewer_app_snapshot
  create_reviewer_app_snapshots-IsCoherent config input =
      let handled = handled_logins js [] config.reviewer_apps in
      let explicit = explicit-IsCoherent config.reviewer_apps input in
      elim (Bool-cases (
        not (is_nonempty (unhandled js handled config.review_bot_logins))
        && not (is_nonempty (unhandled js handled config.approved_review_bot_logins)))) [
          | inl e ↦ rw e explicit
          | inr e ↦ rw e (
              All-append IsCoherent (explicit_snapshots js config.reviewer_apps input) _ explicit
                (legacy_snapshot-IsCoherent _ _ input, tt))
        ]
