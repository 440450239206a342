-- ===== src/Tracker/PlanReview.antt =====
-- src/tracker/plan-review-policy.ts and plan-review-signal.ts: the review of a plan by comments on the
-- issue.
pub mod Acknowledgement
pub mod Laws
use symphony_ts.Base.{
  ℕ, String, Bool, true, false, not, ◌&&◌, List, [], ◌∷◌, map, filter, any, Option, none, some,
  if◌then◌else◌, ◌==◌, nat_eq, string_eq,
}
use symphony_ts.Base.Int.{ℤ, pos, sub_ℕ, ltb_ℤ}
use symphony_ts.Base.Lines.{trim, split_lines}
use symphony_ts.Base.Sets.{contains}
use symphony_ts.Base.Sort.{sort_by}
use symphony_ts.Base.Text.{cat, join, show}
use symphony_ts.Base.Text.Reading.{number_after}
use symphony_ts.Domain.Handoff.{
  HandoffLifecycle, awaiting_human_handoff, no_blocking_verdict, not_required,
}
use symphony_ts.Domain.PlanReview.{
  PlanReviewDecisionSignal, changes_requested, approved, waived, PlanReviewSignal, plan_ready,
  decided, PlanReviewProtocol,
}
use symphony_ts.Tracker.PullRequestPolicy.{missing_pull_request_lifecycle}
use symphony_ts.Tracker.TextEngine.{TextEngine, first_line, first_such, is_text}

pub record IssueCommentSnapshot : Type 0 where
  pub id : ℕ
  pub body : String
  pub created_at : String
  pub url : String
  pub author_login : Option String

pub record ParsedPlanReviewComment : Type 0 where
  pub signal : PlanReviewSignal
  pub comment : IssueCommentSnapshot

pub record ParsedPlanReviewAcknowledgement : Type 0 where
  pub signal : PlanReviewDecisionSignal
  pub review_comment_id : ℕ
  pub comment : IssueCommentSnapshot

pub record PlanReviewAcknowledgement : Type 0 where
  pub signal : PlanReviewDecisionSignal
  pub review_comment_id : ℕ
  pub body : String

pub record PlanReviewProtocolEvaluation : Type 0 where
  pub latest_signal : Option ParsedPlanReviewComment
  pub lifecycle : Option HandoffLifecycle
  pub acknowledgement : Option PlanReviewAcknowledgement

abbrev pub signal_text : PlanReviewDecisionSignal → String
signal_text changes_requested = "changes-requested"
signal_text approved = "approved"
signal_text waived = "waived"

abbrev pub same_signal : PlanReviewDecisionSignal → PlanReviewDecisionSignal → Bool
same_signal changes_requested changes_requested = true
same_signal approved approved = true
same_signal waived waived = true
same_signal _ _ = false

-- The tests of the first line of an acknowledgement, in lower case.
unfoldable pub acknowledged_signal : String → Option PlanReviewDecisionSignal
acknowledged_signal normalized =
    if normalized == "plan review acknowledged: changes-requested"
    then some changes_requested
    else if normalized == "plan review acknowledged: approved"
    then some approved
    else if normalized == "plan review acknowledged: waived"
    then some waived
    else none

abbrev pub next_action : PlanReviewDecisionSignal → PlanReviewProtocol → String
next_action changes_requested protocol = cat (
    "Revise the plan, post a fresh `" ∷ protocol.plan_ready_signal
    ∷ "` comment, and wait for review again." ∷ [])
next_action approved protocol = "Begin substantial implementation."
next_action waived protocol = "Begin substantial implementation without waiting for plan approval."

unfoldable pub build_plan_review_acknowledgement :
    PlanReviewDecisionSignal → IssueCommentSnapshot → PlanReviewProtocol → String
build_plan_review_acknowledgement signal comment protocol = join "\n" (
    cat ("Plan review acknowledged: " ∷ signal_text signal ∷ [])
    ∷ ""
    ∷ cat ("Review comment id: " ∷ show comment.id ∷ [])
    ∷ cat ("Review comment URL: " ∷ comment.url ∷ [])
    ∷ ""
    ∷ "Next action"
    ∷ cat ("- " ∷ next_action signal protocol ∷ [])
    ∷ [])

unfoldable pub build_plan_review_resume_lifecycle :
    String → PlanReviewDecisionSignal → HandoffLifecycle
unfolding missing_pull_request_lifecycle
build_plan_review_resume_lifecycle branch_name signal =
    missing_pull_request_lifecycle branch_name (elim signal [
      | changes_requested ↦ cat (
          "Plan review requested changes for " ∷ branch_name
          ∷ "; revise the plan and post a fresh plan-ready handoff before implementation." ∷ [])
      | approved ↦ cat (
          "Plan review approved for " ∷ branch_name
          ∷ "; resume implementation before opening a pull request." ∷ [])
      | waived ↦ cat (
          "Plan review waived for " ∷ branch_name
          ∷ "; resume implementation before opening a pull request." ∷ [])
    ])

unfoldable pub awaiting_review_lifecycle : String → String → HandoffLifecycle
awaiting_review_lifecycle branch_name issue_url = record {
  kind = awaiting_human_handoff;
  branch_name = branch_name;
  pull_request = none;
  landing_command = none;
  checks = [];
  pending_check_names = [];
  failing_check_names = [];
  actionable_review_feedback = [];
  unresolved_thread_ids = [];
  reviewer_verdict = no_blocking_verdict;
  blocking_reviewer_keys = [];
  required_reviewer_state = not_required;
  summary = cat ("Waiting for human plan review on " ∷ issue_url ∷ []);
}

abbrev pub last_of : {A : Type 0} → List A → Option A
last_of [] = none
last_of (x ∷ []) = some x
last_of (x ∷ y ∷ ys) = last_of (y ∷ ys)

-- `[...list].reverse().find(p)`
abbrev pub last_such : {A : Type 0} → (A → Bool) → List A → Option A
last_such p [] = none
last_such p (x ∷ xs) = elim (last_such p xs) [
  | some y ↦ some y
  | none ↦ if p x then some x else none
]

abbrev pub is_plan_ready : PlanReviewSignal → Bool
is_plan_ready plan_ready = true
is_plan_ready (decided signal) = false

-- The entries of a list that a parser takes.
unfoldable pub parsed : {A B : Type 0} → (A → Option B) → List A → List B
parsed f [] = []
parsed f (x ∷ xs) = elim (f x) [ none ↦ parsed f xs | some y ↦ y ∷ parsed f xs ]

unfoldable pub evaluation :
    Option ParsedPlanReviewComment
    → Option HandoffLifecycle
    → Option PlanReviewAcknowledgement
    → PlanReviewProtocolEvaluation
evaluation latest_signal lifecycle acknowledgement = record {
  latest_signal = latest_signal;
  lifecycle = lifecycle;
  acknowledgement = acknowledgement;
}

-- `/^review comment id:\s*(\d+)$/iu`: the number in the group, where the text matches. No letter of
-- it has another case outside ASCII.
unfoldable pub match_review_comment_id : String → Option ℕ
unfolding number_after
match_review_comment_id line = number_after "review comment id:" line

-- The number in the first of the lines that has one.
unfoldable pub find_review_comment_id : List String → Option ℕ
unfolding match_review_comment_id
find_review_comment_id [] = none
find_review_comment_id (line ∷ rest) = elim (match_review_comment_id line) [
  | some id ↦ some id
  | none ↦ find_review_comment_id rest
]

module _ (js : TextEngine) where
  unfoldable pub normalize_marker : String → String
  unfolding trim
  normalize_marker value = js.to_lower_case (trim value)

  -- The tests of the first line, as it is normalised.
  unfoldable pub signal_of : PlanReviewProtocol → String → Option PlanReviewSignal
  unfolding normalize_marker contains
  signal_of protocol normalized =
      let plan_ready_signals =
        map normalize_marker (protocol.plan_ready_signal ∷ protocol.legacy_plan_ready_signals) in
      if contains plan_ready_signals normalized
      then some plan_ready
      else if normalized == normalize_marker protocol.changes_requested_signal
      then some (decided changes_requested)
      else if normalized == normalize_marker protocol.approved_signal
      then some (decided approved)
      else if normalized == normalize_marker protocol.waived_signal
      then some (decided waived)
      else none

  abbrev signal_of_line : PlanReviewProtocol → Option String → Option PlanReviewSignal
  signal_of_line protocol none = none
  signal_of_line protocol (some line) = signal_of protocol (normalize_marker line)

  unfoldable pub parse_plan_review_signal : String → PlanReviewProtocol → Option PlanReviewSignal
  unfolding signal_of first_line
  parse_plan_review_signal body protocol = signal_of_line protocol (first_line body)

  unfoldable pub parse_plan_review_comment :
      PlanReviewProtocol → IssueCommentSnapshot → Option ParsedPlanReviewComment
  unfolding parse_plan_review_signal
  parse_plan_review_comment protocol comment =
      elim (parse_plan_review_signal comment.body protocol) [
        | none ↦ none
        | some signal ↦ some (record { signal = signal; comment = comment })
      ]

  unfoldable pub acknowledgement_of :
      IssueCommentSnapshot → List String → Option ParsedPlanReviewAcknowledgement
  unfolding acknowledged_signal find_review_comment_id
  acknowledgement_of comment [] = none
  acknowledgement_of comment (first_line ∷ rest) =
      elim (acknowledged_signal (js.to_lower_case first_line)) [
        | none ↦ none
        | some signal ↦ elim (find_review_comment_id rest) [
          | none ↦ none
          | some id ↦ some (record { signal = signal; review_comment_id = id; comment = comment })
        ]
      ]

  unfoldable pub parse_plan_review_acknowledgement :
      IssueCommentSnapshot → Option ParsedPlanReviewAcknowledgement
  unfolding acknowledgement_of trim split_lines
  parse_plan_review_acknowledgement comment =
      acknowledgement_of comment (filter is_text (map trim (split_lines comment.body)))

  abbrev acknowledges : PlanReviewDecisionSignal → ℕ → Option ParsedPlanReviewAcknowledgement → Bool
  acknowledges signal id none = false
  acknowledges signal id (some acknowledgement) =
      same_signal acknowledgement.signal signal && acknowledgement.review_comment_id == id

  unfoldable pub has_acknowledged_latest_signal :
      PlanReviewDecisionSignal → ℕ → List IssueCommentSnapshot → Bool
  unfolding parse_plan_review_acknowledgement
  has_acknowledged_latest_signal signal review_comment_id comments =
      any
        (λ comment.
          acknowledges signal review_comment_id (parse_plan_review_acknowledgement comment))
        comments

  -- A difference of dates with a NaN is no order: the sort takes it for zero.
  unfoldable pub sort_plan_review_comments : ParsedPlanReviewComment → ParsedPlanReviewComment → ℤ
  sort_plan_review_comments left right = elim (js.date_parse left.comment.created_at) [
    | none ↦ pos 0
    | some l ↦ elim (js.date_parse right.comment.created_at) [
      | none ↦ pos 0
      | some r ↦ if l == r then sub_ℕ left.comment.id right.comment.id else sub_ℕ l r
    ]
  ]

  unfoldable pub plan_review_signals :
      PlanReviewProtocol → List IssueCommentSnapshot → List ParsedPlanReviewComment
  unfolding parsed parse_plan_review_comment sort_plan_review_comments
  plan_review_signals protocol comments =
      sort_by sort_plan_review_comments (parsed (parse_plan_review_comment protocol) comments)

  -- The acknowledgement of a decision that was not acknowledged.
  unfoldable pub due_acknowledgement :
      PlanReviewDecisionSignal
      → IssueCommentSnapshot
      → PlanReviewProtocol
      → List IssueCommentSnapshot
      → Option PlanReviewAcknowledgement
  unfolding has_acknowledged_latest_signal build_plan_review_acknowledgement
  due_acknowledgement signal comment protocol comments =
      if has_acknowledged_latest_signal signal comment.id comments
      then none
      else some (record {
        signal = signal;
        review_comment_id = comment.id;
        body = build_plan_review_acknowledgement signal comment protocol;
      })

  -- The branches on a latest signal that decides, by the signals and the latest of them.
  unfoldable pub evaluate_decision :
      String
      → PlanReviewProtocol
      → List IssueCommentSnapshot
      → List ParsedPlanReviewComment
      → ParsedPlanReviewComment
      → PlanReviewDecisionSignal
      → PlanReviewProtocolEvaluation
  unfolding due_acknowledgement evaluation build_plan_review_resume_lifecycle
      sort_plan_review_comments
  evaluate_decision branch_name protocol comments signals latest signal =
      elim (last_such
        (λ entry.
          is_plan_ready entry.signal && ltb_ℤ (sort_plan_review_comments entry latest) (pos 0))
        signals) [
          | none ↦ evaluation (some latest) none none
          | some anchored ↦
              evaluation (some latest)
                (some (build_plan_review_resume_lifecycle branch_name signal))
                (due_acknowledgement signal latest.comment protocol comments)
        ]

  unfoldable pub evaluate_latest :
      String
      → String
      → PlanReviewProtocol
      → List IssueCommentSnapshot
      → List ParsedPlanReviewComment
      → Option ParsedPlanReviewComment
      → PlanReviewProtocolEvaluation
  unfolding evaluate_decision awaiting_review_lifecycle evaluation
  evaluate_latest branch_name issue_url protocol comments signals none = evaluation none none none
  evaluate_latest branch_name issue_url protocol comments signals (some latest) =
      elim latest.signal [
        | plan_ready ↦
            evaluation (some latest) (some (awaiting_review_lifecycle branch_name issue_url)) none
        | decided signal ↦ evaluate_decision branch_name protocol comments signals latest signal
      ]

  unfoldable pub evaluate_plan_review_protocol :
      String
      → String
      → List IssueCommentSnapshot
      → PlanReviewProtocol
      → PlanReviewProtocolEvaluation
  unfolding plan_review_signals evaluate_latest
  evaluate_plan_review_protocol branch_name issue_url comments protocol =
      let signals = plan_review_signals protocol comments in
      evaluate_latest branch_name issue_url protocol comments signals (last_of signals)

  unfoldable pub evaluate_plan_review_lifecycle :
      String → String → List IssueCommentSnapshot → PlanReviewProtocol → Option HandoffLifecycle
  unfolding evaluate_plan_review_protocol
  evaluate_plan_review_lifecycle branch_name issue_url comments protocol =
      (evaluate_plan_review_protocol branch_name issue_url comments protocol).lifecycle
