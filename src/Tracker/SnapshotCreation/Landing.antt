-- ===== src/Tracker/SnapshotCreation/Landing.antt =====
-- From a pull request that awaits landing back to what was observed of it.
use symphony_ts.Base.{
  ◌≡◌, ◌∙◌, inl, inr, refl, sym, subst, ap, Bool, true, false, ◌&&◌, ◌||◌, String, List, [], ◌∷◌,
  map, filter, any, some, is_some, arith, All, Bool-cases, Option-cases, is_nonempty, if◌then◌else◌,
  is_nonempty-filter, is_nonempty-map, any-filter, All-any_none,
}
use symphony_ts.Base.Int.{ℤ}
use symphony_ts.Base.Sets.{set_of, add_all, contains}
use symphony_ts.Base.Sort.{sort_by, is_nonempty-sort_by}
use symphony_ts.Domain.Handoff.{
  PullRequestCheck, ReviewFeedback, PullRequestCheckStatus, success, pending, failure,
}
use symphony_ts.Tracker.TextEngine.{TextEngine}
use symphony_ts.Tracker.Reviewers.Input.{is_pending, is_failure}
use symphony_ts.Tracker.Reviewers.Devin.{first_of}
use symphony_ts.Tracker.SnapshotCreation.{
  thread_feedback, ReviewThread, ThreadComment, PullRequestReviewState, feedback_of_threads,
  feedback_of, is_live, is_human, human_threads, landing_command_of,
  compare_iso_timestamps_descending, find_landing_command, is_landing_command, is_after,
  current_head_issue_comments,
}

none_named :
    {A : Type 0} (name : A → String) (p : A → Bool) (xs : List A)
    → map name (filter p xs) ≡ []
    → any p xs ≡ false
none_named name p xs h =
    sym (is_nonempty-filter p xs) ∙ (sym (is_nonempty-map name (filter p xs)) ∙ ap is_nonempty h)

settled_success :
    (status : PullRequestCheckStatus)
    → is_pending status ≡ false
    → is_failure status ≡ false
    → status ≡ success
settled_success pending p f = cc
settled_success success p f = refl
settled_success failure p f = cc

settled-All :
    (checks : List PullRequestCheck)
    → any (λ check. is_pending check.status) checks ≡ false
    → any (λ check. is_failure check.status) checks ≡ false
    → All (λ check. check.status ≡ success) checks
unfolding any
settled-All [] p f = tt
settled-All (check ∷ rest) p f = (
  settled_success check.status (ground arith) (ground arith),
  settled-All rest (ground arith) (ground arith),
)

-- Where no check is named as pending or as failing, all have succeeded.
pub green-All :
    (checks : List PullRequestCheck)
    → map (λ check. check.name) (filter (λ check. is_pending check.status) checks) ≡ []
    → map (λ check. check.name) (filter (λ check. is_failure check.status) checks) ≡ []
    → All (λ check. check.status ≡ success) checks
green-All checks p f =
    settled-All checks
      (none_named (λ (check : PullRequestCheck). check.name) (λ check. is_pending check.status)
        checks p)
      (none_named (λ (check : PullRequestCheck). check.name) (λ check. is_failure check.status)
        checks f)

first_is_some : {A : Type 0} (xs : List A) → is_some (first_of xs) ≡ is_nonempty xs
first_is_some [] = refl
first_is_some (x ∷ xs) = refl

first-sorted :
    {A B : Type 0} (f : A → B) (cmp : A → A → ℤ) (p q : A → Bool) (xs : List A)
    → is_some (first_of (map f (sort_by cmp (filter p (filter q xs))))) ≡ any (λ x. q x && p x) xs
first-sorted f cmp p q xs =
    first_is_some (map f (sort_by cmp (filter p (filter q xs))))
    ∙ (is_nonempty-map f (sort_by cmp (filter p (filter q xs)))
        ∙ (is_nonempty-sort_by cmp (filter p (filter q xs))
            ∙ (is_nonempty-filter p (filter q xs) ∙ any-filter p q xs)))

module _ (js : TextEngine) (logins : List String) where
  abbrev begun_by_human : List ThreadComment → Bool
  begun_by_human [] = false
  begun_by_human (origin ∷ rest) = is_human js logins origin.author

  -- A live thread that no reviewer app began.
  abbrev pub is_open_question : ReviewThread → Bool
  is_open_question thread = is_live thread && begun_by_human thread.origin_comments

  abbrev is_asked : ReviewFeedback → Bool
  is_asked feedback = is_human js logins feedback.author_login

  -- One more live thread.
  any-asked_live :
      (t : ReviewThread) (ts : List ReviewThread) (asked : Bool)
      → ((threads : List ReviewFeedback)
          → feedback_of_threads ts ≡ some threads
          → any is_asked threads ≡ asked)
      → (threads : List ReviewFeedback) → feedback_of_threads (t ∷ ts) ≡ some threads
      → any is_asked threads ≡ begun_by_human t.origin_comments || asked
  unfolding feedback_of_threads feedback_of any thread_feedback
  any-asked_live t ts asked ih threads h = elim (Option-cases (feedback_of_threads ts)) [
    | inl e ↦ ground arith
    | inr (rest, e) ↦ let same = ih rest e in ground arith
  ]

  pub any-asked :
      (ts : List ReviewThread) (threads : List ReviewFeedback)
      → feedback_of_threads (filter is_live ts) ≡ some threads
      → any is_asked threads ≡ any is_open_question ts
  unfolding filter any feedback_of_threads
  any-asked [] threads h = ground arith
  any-asked (t ∷ ts) threads h = elim (Bool-cases (is_live t)) [
    | inl live ↦ rw live (
        any-asked_live t (filter is_live ts) _ (any-asked ts) threads (
          subst
            (λ b.
              feedback_of_threads (if b then t ∷ filter is_live ts else filter is_live ts)
              ≡ some threads)
            live h))
    | inr dead ↦ rw dead (
        any-asked ts threads (
          subst
            (λ b.
              feedback_of_threads (if b then t ∷ filter is_live ts else filter is_live ts)
              ≡ some threads)
            dead h))
  ]

  -- Where no thread is kept and no feedback is a bot's, no live thread is a human's question.
  pub human_threads-All :
      (ts : List ReviewThread) (threads : List ReviewFeedback)
      → feedback_of_threads (filter is_live ts) ≡ some threads
      → human_threads js logins [] threads ≡ []
      → All (λ t. is_open_question t ≡ false) ts
  unfolding human_threads set_of add_all contains
  human_threads-All ts threads h kept = All-any_none is_open_question ts (
      sym (any-asked ts threads h)
      ∙ (sym (is_nonempty-filter is_asked threads) ∙ ap is_nonempty kept))

  -- Where a landing command was found, there is a commit, and after it a comment that commands.
  pub found_command :
      (review_state : PullRequestReviewState)
      → is_some (
          find_landing_command js
            (first_of review_state.commits)
            logins
            (current_head_issue_comments js review_state))
        ≡ true
      → (is_some (first_of review_state.commits) ≡ true)
        × (any
              (λ comment.
                is_after js comment.created_at (first_of review_state.commits)
                && is_landing_command js logins comment)
              review_state.comments
            ≡ true)
  unfolding find_landing_command current_head_issue_comments
  found_command review_state h = elim (Option-cases (first_of review_state.commits)) [
    | inl e ↦ ground arith
    | inr (latest, e) ↦ rw e (
      refl,
      sym (
            first-sorted landing_command_of
              (λ left right. compare_iso_timestamps_descending js left.created_at right.created_at)
              (is_landing_command js logins)
              (λ comment. is_after js comment.created_at (some latest)) review_state.comments)
          ∙ subst
              (λ o.
                is_some (
                  find_landing_command js o logins
                    (filter (λ comment. is_after js comment.created_at o) review_state.comments))
                ≡ true)
              e h,
    )
  ]
