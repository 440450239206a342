-- ===== src/Tracker/PlanReview/Laws.antt =====
-- An acknowledgement that is posted is not asked for again.
use symphony_ts.Base.{
  ◌≡◌, ◌⊎◌, refl, ap, sym, subst, ◌∙◌, String, Bool, true, ◌&&◌, List, [], ◌∷◌, ◌++◌, map, filter,
  any, Option, none, some, arith, inl, inr, Bool-cases, Option-cases, beq_refl, nat_eq,
}
use symphony_ts.Base.Int.{pos, ltb_ℤ}
use symphony_ts.Base.Lines.{trim, split_lines}
use symphony_ts.Domain.PlanReview.{
  PlanReviewDecisionSignal, changes_requested, approved, waived, PlanReviewSignal, plan_ready,
  decided, PlanReviewProtocol,
}
use symphony_ts.Tracker.TextEngine.{TextEngine, first_line, first_such, is_text}
use symphony_ts.Tracker.PlanReview.{
  IssueCommentSnapshot, ParsedPlanReviewComment, PlanReviewAcknowledgement, same_signal,
  build_plan_review_acknowledgement, parsed, normalize_marker, signal_of, parse_plan_review_signal,
  parse_plan_review_comment, has_acknowledged_latest_signal, plan_review_signals,
  due_acknowledgement, evaluate_decision, evaluate_latest, evaluation,
  evaluate_plan_review_protocol, last_of, last_such, is_plan_ready, sort_plan_review_comments,
}
use symphony_ts.Tracker.PlanReview.Acknowledgement.{head_line, texts-build, Reads, parse-build}

parsed-append_none :
    {A B : Type 0} (f : A → Option B) (xs : List A) (x : A)
    → f x ≡ none
    → parsed f (xs ++ x ∷ []) ≡ parsed f xs
unfolding parsed
parsed-append_none f [] x h = rw (h, parsed) refl
parsed-append_none f (y ∷ xs) x h = elim (Option-cases (f y)) [
  | inl e ↦ rw (e, parsed) (parsed-append_none f xs x h)
  | inr (b, e) ↦ rw (e, parsed) (ap (◌∷◌ b) (parsed-append_none f xs x h))
]

first_such-filter :
    {A : Type 0} (p : A → Bool) (xs : List A) {y : A} {ys : List A}
    → filter p xs ≡ y ∷ ys
    → first_such p xs ≡ some y
unfolding filter
first_such-filter p [] h = cc
first_such-filter p (x ∷ xs) h = elim (Bool-cases (p x)) [
  | inl e ↦ ground arith
  | inr e ↦ rw e (first_such-filter p xs (rw e at h))
]

any-append_last :
    {A : Type 0} (p : A → Bool) (xs : List A) (x : A) → p x ≡ true → any p (xs ++ x ∷ []) ≡ true
unfolding any
any-append_last p [] x h = ground arith
any-append_last p (y ∷ xs) x h = ground (arith, any-append_last p xs x h)

same_refl : (signal : PlanReviewDecisionSignal) → same_signal signal signal ≡ true
same_refl changes_requested = refl
same_refl approved = refl
same_refl waived = refl

Signal-cases :
    (s : PlanReviewSignal) → (s ≡ plan_ready) ⊎ ((d : PlanReviewDecisionSignal) × (s ≡ decided d))
Signal-cases plan_ready = inl refl
Signal-cases (decided d) = inr (d, refl)

module _ (js : TextEngine) (protocol : PlanReviewProtocol) where
  -- The acknowledgement of a decision in a comment.
  abbrev acknowledgement_for :
      PlanReviewDecisionSignal → IssueCommentSnapshot → PlanReviewAcknowledgement
  acknowledgement_for signal comment = record {
    signal = signal;
    review_comment_id = comment.id;
    body = build_plan_review_acknowledgement signal comment protocol;
  }

  due-some :
      (signal : PlanReviewDecisionSignal) (comment : IssueCommentSnapshot)
      (comments : List IssueCommentSnapshot) {ack : PlanReviewAcknowledgement}
      → due_acknowledgement js signal comment protocol comments ≡ some ack
      → acknowledgement_for signal comment ≡ ack
  unfolding due_acknowledgement
  due-some signal comment comments h = ground arith

  due-none :
      (signal : PlanReviewDecisionSignal) (comment : IssueCommentSnapshot)
      (comments : List IssueCommentSnapshot)
      → has_acknowledged_latest_signal js signal comment.id comments ≡ true
      → due_acknowledgement js signal comment protocol comments ≡ none
  unfolding due_acknowledgement
  due-none signal comment comments h = ground arith

  module _ (branch_name : String) (comments later : List IssueCommentSnapshot)
      (ack : PlanReviewAcknowledgement)
      (settles : (signal : PlanReviewDecisionSignal) (comment : IssueCommentSnapshot)
        → acknowledgement_for signal comment ≡ ack
        → has_acknowledged_latest_signal js signal comment.id later ≡ true) where
    decision-settled :
        (signals : List ParsedPlanReviewComment) (latest : ParsedPlanReviewComment)
        (signal : PlanReviewDecisionSignal)
        → (evaluate_decision js branch_name protocol comments signals latest signal).acknowledgement
          ≡ some ack
        → evaluate_decision js branch_name protocol later signals latest signal
          ≡ record (evaluate_decision js branch_name protocol comments signals latest signal) {
            acknowledgement = none;
          }
    unfolding evaluate_decision evaluation
    decision-settled signals latest signal h =
        elim (Option-cases (
          last_such
            (λ entry.
              is_plan_ready entry.signal
              && ltb_ℤ (sort_plan_review_comments js entry latest) (pos 0))
            signals)) [
              | inl e ↦ ground arith
              | inr (anchored, e) ↦
                  let asked : due_acknowledgement js signal latest.comment protocol comments
                      ≡ some ack =
                    ground arith in
                  let own = due-some signal latest.comment comments asked in
                  let done =
                    due-none signal latest.comment later (settles signal latest.comment own) in
                  ground arith
            ]

    latest-settled :
        (issue_url : String) (signals : List ParsedPlanReviewComment)
        (latest : Option ParsedPlanReviewComment)
        → (evaluate_latest js branch_name issue_url protocol comments signals
            latest).acknowledgement
          ≡ some ack
        → evaluate_latest js branch_name issue_url protocol later signals latest
          ≡ record (evaluate_latest js branch_name issue_url protocol comments signals latest) {
            acknowledgement = none;
          }
    unfolding evaluate_latest evaluation
    latest-settled issue_url signals none h = refl
    latest-settled issue_url signals (some latest) h = elim (Signal-cases latest.signal) [
      | inl e ↦ ground arith
      | inr (signal, e) ↦ let settled = decision-settled signals latest signal in ground arith
    ]

  -- A text that begins as an acknowledgement is no signal, unless a marker of the protocol says so.
  silent :
      (signal : PlanReviewDecisionSignal) (comment posted : IssueCommentSnapshot)
      → signal_of js protocol (normalize_marker js (head_line signal)) ≡ none
      → posted.body ≡ build_plan_review_acknowledgement signal comment protocol
      → parse_plan_review_comment js protocol posted ≡ none
  unfolding parse_plan_review_comment parse_plan_review_signal first_line
  silent signal comment posted unmarked same =
      let (rest, texts) = texts-build signal comment protocol in
      let head = first_such-filter is_text _ texts in
      let here : first_such is_text (map trim (split_lines posted.body)) ≡ some (head_line signal) =
        subst (λ body. first_such is_text (map trim (split_lines body)) ≡ some (head_line signal))
          (sym same) head in
      ground arith

  settled-has :
      (signal : PlanReviewDecisionSignal) (comment posted : IssueCommentSnapshot)
      (comments : List IssueCommentSnapshot)
      → Reads js signal
      → posted.body ≡ build_plan_review_acknowledgement signal comment protocol
      → has_acknowledged_latest_signal js signal comment.id (comments ++ posted ∷ []) ≡ true
  unfolding has_acknowledged_latest_signal
  settled-has signal comment posted comments reads same =
      let known = parse-build js signal comment posted protocol reads same in
      any-append_last _ comments posted (ground (arith, same_refl signal, beq_refl comment.id))

  -- An acknowledgement that is asked for is that of some decision in some comment.
  abbrev IsAsked : PlanReviewAcknowledgement → Type 0
  IsAsked ack =
      (signal : PlanReviewDecisionSignal) × (comment : IssueCommentSnapshot) × (acknowledgement_for
          signal comment
        ≡ ack)

  module _ (branch_name issue_url : String) (comments : List IssueCommentSnapshot)
      {ack : PlanReviewAcknowledgement} where
    decision-IsAsked :
        (signals : List ParsedPlanReviewComment) (latest : ParsedPlanReviewComment)
        (signal : PlanReviewDecisionSignal)
        → (evaluate_decision js branch_name protocol comments signals latest signal).acknowledgement
          ≡ some ack
        → IsAsked ack
    unfolding evaluate_decision evaluation
    decision-IsAsked signals latest signal h =
        elim (Option-cases (
          last_such
            (λ entry.
              is_plan_ready entry.signal
              && ltb_ℤ (sort_plan_review_comments js entry latest) (pos 0))
            signals)) [
              | inl e ↦ ground arith
              | inr (anchored, e) ↦
                  (signal, latest.comment, due-some signal latest.comment comments (ground arith))
            ]

    latest-IsAsked :
        (signals : List ParsedPlanReviewComment) (latest : Option ParsedPlanReviewComment)
        → (evaluate_latest js branch_name issue_url protocol comments signals
            latest).acknowledgement
          ≡ some ack
        → IsAsked ack
    unfolding evaluate_latest evaluation
    latest-IsAsked signals none h = ground arith
    latest-IsAsked signals (some latest) h = elim (Signal-cases latest.signal) [
      | inl e ↦ ground arith
      | inr (signal, e) ↦ decision-IsAsked signals latest signal (ground arith)
    ]

  -- Where the evaluation of the comments asks for an acknowledgement, and a comment with its text is
  -- posted after them, the evaluation with that comment has the same latest signal and the same
  -- lifecycle, and asks for no acknowledgement; where the first line of the acknowledgement is put in
  -- lower case as it should, and the protocol does not use its head as a marker.
  pub evaluate-acknowledged :
      (branch_name issue_url : String) (comments : List IssueCommentSnapshot)
      (ack : PlanReviewAcknowledgement) (posted : IssueCommentSnapshot)
      → Reads js ack.signal
      → signal_of js protocol (normalize_marker js (head_line ack.signal)) ≡ none
      → (evaluate_plan_review_protocol js branch_name issue_url comments protocol).acknowledgement
        ≡ some ack
      → posted.body ≡ ack.body
      → evaluate_plan_review_protocol js branch_name issue_url (comments ++ posted ∷ []) protocol
        ≡ record (evaluate_plan_review_protocol js branch_name issue_url comments protocol) {
          acknowledgement = none;
        }
  unfolding evaluate_plan_review_protocol plan_review_signals
  evaluate-acknowledged branch_name issue_url comments ack posted reads unmarked asked same =
      let signals = plan_review_signals js protocol comments in
      let (signal, comment, own) =
        latest-IsAsked branch_name issue_url comments signals (last_of signals) asked in
      let quiet =
        silent signal comment posted
          (subst (λ a. signal_of js protocol (normalize_marker js (head_line a.signal)) ≡ none)
            (sym own) unmarked)
          (same ∙ ap (λ a. a.body) (sym own)) in
      rw (parsed-append_none (parse_plan_review_comment js protocol) comments posted quiet) (
        latest-settled branch_name comments (comments ++ posted ∷ []) ack
          (λ s c mine.
            settled-has s c posted comments (subst (λ a. Reads js a.signal) (sym mine) reads)
              (same ∙ ap (λ a. a.body) (sym mine)))
          issue_url signals (last_of signals) asked)
