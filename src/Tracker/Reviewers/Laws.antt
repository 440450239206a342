-- ===== src/Tracker/Reviewers/Laws.antt =====
-- What the reviewer apps' snapshots are like, and when the required ones are satisfied.
use symphony_ts.Base.{
  ◌≡◌, refl, Bool, true, false, not, ◌&&◌, ◌||◌, ◌↔◌, List, [], ◌∷◌, any, arith, All, any-filter,
  is_nonempty-filter, All-any_none, any_none-All, any-and, any-or, if◌then◌else◌, string_eq,
}
use symphony_ts.Domain.Handoff.{
  PullRequestRequiredReviewerState, not_required, satisfied, running, missing, ReviewFeedback,
  PullRequestCheck,
}
use symphony_ts.Domain.Handoff
use symphony_ts.Tracker.Snapshot.{ReviewerAppSnapshot}
use symphony_ts.Tracker.Reviewers.Input.{is_pass}
use symphony_ts.Tracker.Reviewers.{
  is_status_running, is_coverage_missing, evaluate_required_reviewer_state,
}

-- A required app that is done, was seen, and passed; or an app that is not required.
pub record IsSettled (r : ReviewerAppSnapshot) : Type 0 where
  pub idle : r.required ≡ true → is_status_running r.status ≡ false
  pub seen : r.required ≡ true → is_coverage_missing r.coverage ≡ false
  pub passed : r.required ≡ true → is_pass r.verdict ≡ true

abbrev is_unsettled : ReviewerAppSnapshot → Bool
is_unsettled r =
    (r.required && is_status_running r.status)
    || ((r.required && is_coverage_missing r.coverage) || (r.required && not (is_pass r.verdict)))

is_unsettled_iff : (r : ReviewerAppSnapshot) → (is_unsettled r ≡ false) ↔ IsSettled r
is_unsettled_iff r = (
  λ h. record { idle = λ q. ground arith; seen = λ q. ground arith; passed = λ q. ground arith },
  λ s. let i = s.idle in let c = s.seen in let p = s.passed in ground (arith, i, c, p),
)

is_unsettled-All :
    (rs : List ReviewerAppSnapshot) → (any is_unsettled rs ≡ false) ↔ All IsSettled rs
unfolding any
is_unsettled-All [] = (λ h. tt, λ h. refl)
is_unsettled-All (r ∷ rs) =
    let (to, from) = is_unsettled_iff r in
    let (tos, froms) = is_unsettled-All rs in
    (λ h. (to (ground arith), tos (ground arith)), λ (s, ss). ground (arith, from s, froms ss))

-- What the five required states say of the apps that are required: none is; one still runs; none
-- runs and one was not seen; all are settled. The fifth, unknown, is the rest.
pub record States (rs : List ReviewerAppSnapshot) (state : PullRequestRequiredReviewerState)
    : Type 0 where
  pub unneeded : (state ≡ not_required) ↔ All (λ r. r.required ≡ false) rs
  pub busy : (state ≡ running) ↔ (any (λ r. r.required && is_status_running r.status) rs ≡ true)
  pub unseen : (state ≡ missing) ↔ (
      (any (λ r. r.required && is_status_running r.status) rs ≡ false)
      × (any (λ r. r.required && is_coverage_missing r.coverage) rs ≡ true))
  pub settled : (state ≡ satisfied) ↔ ((any (λ r. r.required) rs ≡ true) × All IsSettled rs)

unsettled :
    (rs : List ReviewerAppSnapshot)
    → any is_unsettled rs
      ≡ any (λ r. r.required && is_status_running r.status) rs
        || (any (λ r. r.required && is_coverage_missing r.coverage) rs
            || any (λ r. r.required && not (is_pass r.verdict)) rs)
unsettled rs = ground (
  arith,
  any-or (λ (r : ReviewerAppSnapshot). r.required && is_status_running r.status)
      (λ r.
        (r.required && is_coverage_missing r.coverage) || (r.required && not (is_pass r.verdict)))
      rs,
  any-or (λ (r : ReviewerAppSnapshot). r.required && is_coverage_missing r.coverage)
      (λ r. r.required && not (is_pass r.verdict)) rs,
)

-- The state by the four tests on all apps.
abbrev state_by : Bool → Bool → Bool → Bool → PullRequestRequiredReviewerState
state_by needed busy unseen failed =
    if not needed
    then not_required
    else if busy
    then running
    else if unseen
    then missing
    else if failed
    then Handoff.unknown
    else satisfied

state_by_tests :
    (rs : List ReviewerAppSnapshot)
    → evaluate_required_reviewer_state rs
      ≡ state_by
          (any (λ r. r.required) rs)
          (any (λ r. r.required && is_status_running r.status) rs)
          (any (λ r. r.required && is_coverage_missing r.coverage) rs)
          (any (λ r. r.required && not (is_pass r.verdict)) rs)
unfolding evaluate_required_reviewer_state
state_by_tests rs =
    rw
      (
        is_nonempty-filter (λ (r : ReviewerAppSnapshot). r.required) rs,
        any-filter (λ r. is_status_running r.status) (λ (r : ReviewerAppSnapshot). r.required) rs,
        any-filter (λ r. is_coverage_missing r.coverage) (λ (r : ReviewerAppSnapshot). r.required)
            rs,
        any-filter (λ r. not (is_pass r.verdict)) (λ (r : ReviewerAppSnapshot). r.required) rs,
      )
      refl

-- The state of the required reviewer apps is: not required, exactly when no app is required;
-- running, exactly when a required one is running; missing, exactly when none of the required ones is
-- running and one was not observed; satisfied, exactly when an app is required and every required
-- one is not running, was observed and passed.
pub required_state_lem :
    (rs : List ReviewerAppSnapshot) → States rs (evaluate_required_reviewer_state rs)
required_state_lem rs =
    let (settles, unsettles) = is_unsettled-All rs in
    let none_needed = any_none-All (λ (r : ReviewerAppSnapshot). r.required) rs in
    let all_free = All-any_none (λ (r : ReviewerAppSnapshot). r.required) rs in
    let idle =
      any-and (λ (r : ReviewerAppSnapshot). r.required) (λ r. is_status_running r.status) rs in
    let open_tests = unsettled rs in
    rw (state_by_tests rs) (record {
      unneeded = (λ h. all_free (ground arith), λ h. let n = none_needed h in ground (arith, n));
      busy = (λ h. ground arith, λ h. ground (arith, idle));
      unseen = (
        λ h. (ground arith, ground arith),
        λ (h, k).
            let seen =
              any-and (λ (r : ReviewerAppSnapshot). r.required)
                (λ r. is_coverage_missing r.coverage) rs in
            ground (arith, seen),
      );
      settled = (
        λ h. (ground arith, settles (ground (arith, open_tests))),
        λ (h, k). let u = unsettles k in ground (arith, u, open_tests),
      );
    })
