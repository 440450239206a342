-- ===== src/Tests/LinearIssues.antt =====
-- A Linear issue that was approved, reworked, and handed off again.
use symphony_ts.Base.{
  ◌≡◌, refl, String, true, false, any, [], ◌∷◌, none, some, ◌==◌, string_eq, if◌then◌else◌,
}
use symphony_ts.Base.Int.{ℤ, pos}
use symphony_ts.Domain.Handoff.{awaiting_human_review}
use symphony_ts.Domain.PlanReview.{create_default_plan_review_protocol}
use symphony_ts.Tracker.Linear.{
  LinearIssueSnapshot, LinearComment, LinearTrackerConfig, LinearWorkpadStatus,
  LinearIssueClassification, classify_linear_issue, has_completed, matches_configured_state_name,
  same_linear_state_name,
}
use symphony_ts.Tracker.Linear.Lifecycle.{
  create_linear_handoff_lifecycle, is_current, current_linear_handoff_started_at, parse_or_nan,
}
use symphony_ts.Tracker.Linear.Laws.{
  IsSilent, classify-handoff, handoff-awaiting, is_missing_target,
}
use symphony_ts.Tests.Snapshots.{engine}

abbrev compare_names : String → String → ℤ
compare_names left right = if left == right then pos 0 else pos 1

abbrev approval : LinearComment
approval = record {
  id = "c1";
  body = "Plan review: approved";
  created_at = "1";
  user_name = none;
  user_email = none;
}

abbrev issue : LinearIssueSnapshot
issue = record {
  identifier = "ENG-7";
  state = record { id = "s"; name = "In Progress"; state_type = "started"; position = 2 };
  assigned_to_worker = true;
  comments = approval ∷ [];
  workpad = some (record {
    status = LinearWorkpadStatus.handoff_ready;
    summary = "";
    branch_name = none;
    updated_at = "2";
  });
}

abbrev config : LinearTrackerConfig
config = record {
  project_slug = "eng";
  active_states = "Todo" ∷ "In Progress" ∷ [];
  terminal_states = "Done" ∷ [];
  plan_review = create_default_plan_review_protocol;
}

approval-IsSilent :
    IsSilent engine create_default_plan_review_protocol
      (parse_or_nan engine (current_linear_handoff_started_at issue))
      approval
unfolding is_current current_linear_handoff_started_at
approval-IsSilent = record { silent = λ h. cc }

undone : matches_configured_state_name compare_names config.terminal_states issue.state.name ≡ false
unfolding matches_configured_state_name any
undone = refl

unreworked : same_linear_state_name compare_names issue.state.name "Rework" ≡ false
unfolding same_linear_state_name
unreworked = refl

unmerged : same_linear_state_name compare_names issue.state.name "Merging" ≡ false
unfolding same_linear_state_name
unmerged = refl

handoff-awaiting_example :
    (create_linear_handoff_lifecycle engine compare_names (some issue) "symphony/7" config).kind
    ≡ awaiting_human_review
handoff-awaiting_example =
    handoff-awaiting engine compare_names issue "symphony/7" config refl (approval-IsSilent, tt)
      undone unreworked unmerged

awaited :
    is_missing_target
      (create_linear_handoff_lifecycle engine compare_names (some issue) "symphony/7" config).kind
    ≡ false
awaited =
    rw
      (handoff-awaiting engine compare_names issue "symphony/7" config refl (approval-IsSilent, tt)
        undone unreworked unmerged)
      refl

classify-handoff_example : classify_linear_issue compare_names issue config ≡ (
    if has_completed issue.workpad
    then LinearIssueClassification.completed
    else LinearIssueClassification.running)
classify-handoff_example =
    classify-handoff engine compare_names issue "symphony/7" config refl awaited
