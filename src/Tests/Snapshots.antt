-- ===== src/Tests/Snapshots.antt =====
-- A pull request with one check, a review of the Devin app and a landing command.
use symphony_ts.Base.{
  ℕ, ◌≡◌, refl, String, Bool, true, false, List, [], ◌∷◌, any, filter, Option, none, some, ◌==◌,
  string_eq, if◌then◌else◌,
}
use symphony_ts.Base.Int.{pos}
use symphony_ts.Base.Sort.{sort_by}
use symphony_ts.Base.Text.{includes, without_end}
use symphony_ts.Domain.Handoff.{PullRequestCheck, ReviewFeedback, success, awaiting_landing}
use symphony_ts.Tracker.Snapshot.{
  open_pr, ReviewerAppSnapshot, ReviewerAppStatus, observed, running, completed, pass,
}
use symphony_ts.Tracker.Reviewers.{evaluate_required_reviewer_state}
use symphony_ts.Tracker.Reviewers.Laws.{States, required_state_lem}
use symphony_ts.Tracker.TextEngine.{
  TextEngine, Pattern, devin_review, no_issues_found_line, devin_informational_heading,
}
use symphony_ts.Tracker.PullRequestPolicy.{evaluate_pull_request_lifecycle, is_passing_merge_state}
use symphony_ts.Tracker.Reviewers.Input.{CurrentHeadIssueComment}
use symphony_ts.Tracker.SnapshotCreation.{
  SnapshotInput, create_pull_request_snapshot, snapshot_with, ReviewThread, ThreadComment,
  thread_feedback,
}
use symphony_ts.Tracker.SnapshotCreation.Laws.{
  IsUnanimous, create_pull_request_snapshot-IsUnanimous,
}
use symphony_ts.Tracker.SnapshotCreation.Safety.{MayLand, created-MayLand}

abbrev matches : Pattern → String → Bool
matches devin_review line = includes line "Devin Review"
matches no_issues_found_line line = includes line "No Issues Found"
matches devin_informational_heading line = includes line "**Info"
matches _ line = false

-- Dates are numbers of one digit here, and texts are lower case.
abbrev digit_of : String → Option ℕ
digit_of s =
    if s == "1" then some 1 else if s == "2" then some 2 else if s == "3" then some 3 else none

abbrev pub engine : TextEngine
engine = record {
  to_lower_case = λ s. s;
  without_html_comments = λ s. s;
  with_single_spaces = λ s. s;
  test = matches;
  code_units = λ s. 10;
  take_units = λ n s. s;
  date_parse = digit_of;
  locale_compare = λ s t. pos 0;
}

abbrev comment : String → String → String → String → CurrentHeadIssueComment
comment id author body date = record {
  id = id;
  author_login = some author;
  body = body;
  created_at = date;
  url = "https://example.org";
  author_association = "OWNER";
}

abbrev devin_check : PullRequestCheck
devin_check = record {
  name = "Devin Review";
  status = success;
  conclusion = some "success";
  details_url = none;
}

abbrev input_with : List ReviewThread → SnapshotInput
input_with threads = record {
  branch_name = "symphony/7";
  pull_request = record {
    number = 7;
    html_url = "https://example.org/7";
    head_ref = "symphony/7";
    head_sha = "abc";
    landing_state = open_pr;
    mergeable = some (some true);
    mergeable_state = some (some "clean");
    draft = some false;
  };
  checks = devin_check ∷ [];
  review_state = record {
    commits = "1" ∷ [];
    comments =
        comment "c1" "devin-ai-integration[bot]" "Devin Review: No Issues Found" "2"
        ∷ comment "c2" "owner" "/land" "3"
        ∷ [];
    reviews = none;
    review_threads = threads;
  };
  reviewers = record {
    review_bot_logins = [];
    approved_review_bot_logins = [];
    reviewer_apps = record { key = "devin"; accepted = true; required = true } ∷ [];
  };
}

abbrev input : SnapshotInput
input = input_with []

input_made : create_pull_request_snapshot engine input ≡ some (snapshot_with engine input [])
unfolding create_pull_request_snapshot filter
input_made = refl

input_lands :
    (evaluate_pull_request_lifecycle (snapshot_with engine input []) none).lifecycle.kind
    ≡ awaiting_landing
unfolding evaluate_pull_request_lifecycle snapshot_with filter sort_by without_end any
    is_passing_merge_state
input_lands = refl

created-MayLand_example : MayLand engine input (snapshot_with engine input []).reviewer_apps
created-MayLand_example = created-MayLand engine input none input_made input_lands

-- A live thread that the Devin app began.
abbrev devin_comment : ThreadComment
devin_comment = record {
  id = "t1c1";
  body = "This may overflow.";
  created_at = "2";
  url = "https://example.org/t1";
  path = none;
  line = none;
  author = some "devin-ai-integration";
}

abbrev thread_with : List ThreadComment → ReviewThread
thread_with comments = record {
  id = "t1";
  is_resolved = false;
  is_outdated = false;
  origin_comments = comments;
  latest_comments = comments;
}

abbrev objected : SnapshotInput
objected = input_with (thread_with (devin_comment ∷ []) ∷ [])

abbrev objection : List ReviewFeedback
unfolding thread_feedback
objection = thread_feedback (thread_with []) devin_comment devin_comment ∷ []

objected_made :
    create_pull_request_snapshot engine objected ≡ some (snapshot_with engine objected objection)
unfolding create_pull_request_snapshot filter
objected_made = refl

create_pull_request_snapshot-IsUnanimous_example :
    IsUnanimous (snapshot_with engine objected objection)
create_pull_request_snapshot-IsUnanimous_example =
    create_pull_request_snapshot-IsUnanimous engine objected objected_made

-- A required app that is still running, and one that is not required.
abbrev app : String → Bool → ReviewerAppStatus → ReviewerAppSnapshot
app key required status = record {
  reviewer_key = key;
  accepted = true;
  required = required;
  coverage = observed;
  status = status;
  verdict = pass;
  actionable_feedback = [];
  unresolved_feedback_ids = [];
  evidence = [];
}

abbrev apps : List ReviewerAppSnapshot
apps = app "devin" true running ∷ app "cursor" false completed ∷ []

required_state_lem_example : States apps (evaluate_required_reviewer_state apps)
required_state_lem_example = required_state_lem apps
