-- ===== src/Tracker/SnapshotCreation/Laws.antt =====
-- When a snapshot cannot be made, what a snapshot says of the reviewer apps, and what must have
-- been observed of a pull request that awaits landing.
use symphony_ts.Base.{
  ◌≡◌, ◌↔◌, inl, inr, refl, subst, Bool, true, not, ◌&&◌, List, [], ◌∷◌, filter, any, none, some,
  arith, All, Bool-cases, Option-cases, is_nonempty, is_nonempty-append, is_nonempty-append_right,
}
use symphony_ts.Domain.Handoff.{ReviewFeedback}
use symphony_ts.Tracker.Snapshot.{PullRequestSnapshot, ReviewerAppSnapshot}
use symphony_ts.Tracker.PullRequestPolicy.{is_blocking}
use symphony_ts.Tracker.TextEngine.{TextEngine}
use symphony_ts.Tracker.Reviewers.{
  create_reviewer_app_snapshots, evaluate_reviewer_verdict, blocking_keys,
}
use symphony_ts.Tracker.Reviewers.Coherence.{IsCoherent, create_reviewer_app_snapshots-IsCoherent}
use symphony_ts.Tracker.SnapshotCreation.{
  SnapshotInput, ReviewThread, feedback_of_threads, feedback_of, unresolved_threads, is_live,
  create_pull_request_snapshot, snapshot_with, bot_feedback, adapter_input,
}

-- A live thread that lacks its first or its latest comment.
abbrev pub is_broken : ReviewThread → Bool
is_broken thread =
    is_live thread && not (is_nonempty thread.origin_comments && is_nonempty thread.latest_comments)

feedback_of_threads_iff :
    (threads : List ReviewThread)
    → (feedback_of_threads (filter is_live threads) ≡ none) ↔ (any is_broken threads ≡ true)
unfolding feedback_of_threads feedback_of filter any
feedback_of_threads_iff [] = (λ h. cc, λ h. cc)
feedback_of_threads_iff (thread ∷ rest) =
    let (to, from) = feedback_of_threads_iff rest in
    elim (Bool-cases (is_live thread)) [
      | inl e ↦ rw e (λ h. ground (arith, to), λ h. ground (arith, from))
      | inr e ↦ rw e (to, from)
    ]

-- No snapshot is made of a pull request exactly when one of its review threads is neither resolved
-- nor outdated and lacks its first or its latest comment.
pub create_pull_request_snapshot-none_iff :
    (js : TextEngine) (input : SnapshotInput)
    → (create_pull_request_snapshot js input ≡ none)
      ↔ (any is_broken input.review_state.review_threads ≡ true)
unfolding create_pull_request_snapshot unresolved_threads
create_pull_request_snapshot-none_iff js input =
    let (to, from) = feedback_of_threads_iff input.review_state.review_threads in
    (λ h. ground (arith, to), λ h. ground (arith, from))

blocking-bot_feedback :
    (rs : List ReviewerAppSnapshot)
    → All IsCoherent rs
    → is_nonempty (blocking_keys rs) ≡ is_nonempty (bot_feedback rs)
unfolding blocking_keys bot_feedback filter
blocking-bot_feedback [] h = refl
blocking-bot_feedback (r ∷ rs) (c, h) =
    let judged = c.judged in
    ground (
      arith,
      blocking-bot_feedback rs h,
      is_nonempty-append r.actionable_feedback (bot_feedback rs),
    )

-- What a snapshot says of the reviewer apps is one thing, said three times.
pub record IsUnanimous (s : PullRequestSnapshot) : Type 0 where
  pub verdict : is_blocking s.reviewer_verdict ≡ is_nonempty s.bot_actionable_review_feedback
  pub keys : is_nonempty s.blocking_reviewer_keys ≡ is_nonempty s.bot_actionable_review_feedback
  pub kept :
      is_nonempty s.bot_actionable_review_feedback ≡ true
      → is_nonempty s.actionable_review_feedback ≡ true

snapshot_with-IsUnanimous :
    (js : TextEngine) (input : SnapshotInput) (threads : List ReviewFeedback)
    → IsUnanimous (snapshot_with js input threads)
unfolding snapshot_with evaluate_reviewer_verdict
snapshot_with-IsUnanimous js input threads =
    let apps = create_reviewer_app_snapshots js input.reviewers (adapter_input js input threads) in
    let same = blocking-bot_feedback apps (
      create_reviewer_app_snapshots-IsCoherent js input.reviewers
        (adapter_input js input threads)) in
    record {
      verdict = ground (arith, same);
      keys = same;
      kept = λ h. is_nonempty-append_right _ _ h;
    }

pub snapshot-with :
    (js : TextEngine) (input : SnapshotInput) {s : PullRequestSnapshot}
    → create_pull_request_snapshot js input ≡ some s
    → (threads : List ReviewFeedback) × (unresolved_threads input.review_state ≡ some threads)
      × (snapshot_with js input threads ≡ s)
unfolding create_pull_request_snapshot
snapshot-with js input made = elim (Option-cases (unresolved_threads input.review_state)) [
  | inl e ↦ ground arith
  | inr (threads, e) ↦ (threads, e, ground arith)
]

-- In every snapshot that is made, these agree: that the reviewers' verdict is blocking, that there
-- is a blocking reviewer's key, and that there is actionable feedback of a bot. The feedback of bots
-- is then part of the actionable feedback.
pub create_pull_request_snapshot-IsUnanimous :
    (js : TextEngine) (input : SnapshotInput) {s : PullRequestSnapshot}
    → create_pull_request_snapshot js input ≡ some s
    → IsUnanimous s
create_pull_request_snapshot-IsUnanimous js input made =
    let (threads, _, same) = snapshot-with js input made in
    subst IsUnanimous same (snapshot_with-IsUnanimous js input threads)
