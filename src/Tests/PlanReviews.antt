-- ===== src/Tests/PlanReviews.antt =====
-- A plan that was announced and approved, and the acknowledgement of the approval.
use symphony_ts.Base.{
  ℕ, ◌≡◌, refl, String, any, filter, map, List, [], ◌∷◌, ◌++◌, none, some, ◌==◌, string_eq,
  if◌then◌else◌,
}
use symphony_ts.Base.Sort.{sort_by}
use symphony_ts.Base.Text.{cat}
use symphony_ts.Domain.PlanReview.{
  PlanReviewProtocol, create_default_plan_review_protocol, approved,
}
use symphony_ts.Tracker.TextEngine.{TextEngine}
use symphony_ts.Tracker.PlanReview.{
  IssueCommentSnapshot, PlanReviewAcknowledgement, evaluate_plan_review_protocol,
  build_plan_review_acknowledgement, parse_plan_review_acknowledgement, normalize_marker, signal_of,
  match_review_comment_id,
}
use symphony_ts.Tracker.PlanReview.Acknowledgement.{Reads, parse-build, head_line}
use symphony_ts.Tracker.PlanReview.Laws.{evaluate-acknowledged}
use symphony_ts.Tests.Snapshots.{engine}

abbrev lowered : String → String
lowered s =
    if s == "Plan review acknowledged: approved"
    then "plan review acknowledged: approved"
    else if s == "Plan status: plan-ready"
    then "plan status: plan-ready"
    else if s == "Plan review: approved"
    then "plan review: approved"
    else s

abbrev reader : TextEngine
reader = record engine { to_lower_case = lowered }

abbrev comment : ℕ → String → String → IssueCommentSnapshot
comment id body date = record {
  id = id;
  body = body;
  created_at = date;
  url = "https://example.org/c";
  author_login = none;
}

abbrev approval : IssueCommentSnapshot
approval = comment 8 "Plan review: approved\nGood." "2"

abbrev thread : List IssueCommentSnapshot
thread = comment 7 "Plan status: plan-ready" "1" ∷ approval ∷ []

abbrev protocol : PlanReviewProtocol
protocol = record create_default_plan_review_protocol {
  plan_ready_signal = "Plan status: plan-ready";
  legacy_plan_ready_signals = "Plan ready for review." ∷ [];
  approved_signal = "Plan review: approved";
  changes_requested_signal = "Plan review: changes-requested";
  waived_signal = "Plan review: waived";
}

abbrev reply : IssueCommentSnapshot
reply = comment 9 (build_plan_review_acknowledgement approved approval protocol) "3"

reads : Reads reader approved
unfolding cat
reads = record { lowers = refl }

reads_ids :
    map match_review_comment_id
      ("REVIEW comment id:\t 42" ∷ "Review comment id 42" ∷ "Review comment id: 42." ∷ [])
    ≡ some 42 ∷ none ∷ none ∷ []
unfolding match_review_comment_id
reads_ids = refl

parse-build_example :
    parse_plan_review_acknowledgement reader reply
    ≡ some (record { signal = approved; review_comment_id = 8; comment = reply })
parse-build_example = parse-build reader approved approval reply protocol reads refl

abbrev request : PlanReviewAcknowledgement
request = record {
  signal = approved;
  review_comment_id = 8;
  body = build_plan_review_acknowledgement approved approval protocol;
}

unmarked : signal_of reader protocol (normalize_marker reader (head_line approved)) ≡ none
unfolding signal_of cat
unmarked = refl

asked :
    (evaluate_plan_review_protocol reader "symphony/7" "https://example.org" thread
      protocol).acknowledgement
    ≡ some request
unfolding evaluate_plan_review_protocol sort_by any filter
asked = refl

evaluate-acknowledged_example :
    evaluate_plan_review_protocol reader "symphony/7" "https://example.org"
      (thread ++ reply ∷ [])
      protocol
    ≡ record (evaluate_plan_review_protocol reader "symphony/7" "https://example.org" thread
        protocol) { acknowledgement = none }
evaluate-acknowledged_example =
    evaluate-acknowledged reader protocol "symphony/7" "https://example.org" thread request reply
      reads unmarked asked refl
