-- ===== src/Tests/Data.antt =====
-- Issues, retries, hosts and pull requests that the tests share.
use symphony_ts.Base.{ℕ, String, true, false, List, [], Option, none, some}
use symphony_ts.Base.Int.{pos}
use symphony_ts.Domain.Issue.{RuntimeIssue, QueuePriority}
use symphony_ts.Domain.Retry.{RetryState, run_failure}
use symphony_ts.Domain.Workflow.{SshWorkerHostConfig, WatchdogConfig}
use symphony_ts.Domain.Handoff.{
  PullRequestHandle, PullRequestCheck, success, no_blocking_verdict, not_required,
}
use symphony_ts.Tracker.Snapshot.{PullRequestSnapshot, open_pr}

abbrev pub issue_of : ℕ → Option QueuePriority → RuntimeIssue
issue_of number priority = record {
  id = "I";
  identifier = "ABC";
  number = number;
  title = "A title";
  description = "";
  labels = [];
  state = "open";
  url = "https://example.org/issue";
  created_at = "2025-01-01T00:00:00.000Z";
  updated_at = "2025-01-01T00:00:00.000Z";
  closed_at = none;
  queue_priority = priority;
  blocked_by = [];
}

abbrev pub plain : ℕ → RuntimeIssue
plain number = issue_of number none

abbrev pub urgent : ℕ → RuntimeIssue
urgent number = issue_of number (some (record { rank = pos 1; label = some "P1" }))

abbrev pub retry_of : ℕ → ℕ → RetryState
retry_of number due_at = record {
  issue = plain number;
  run_sequence = 1;
  failure_retry_attempt = 1;
  next_attempt = 2;
  preferred_host = none;
  retry_class = run_failure;
  scheduled_at = 0;
  backoff_ms = due_at;
  due_at = due_at;
  last_error = "failed";
}

abbrev pub host_of : String → SshWorkerHostConfig
host_of name = record {
  name = name;
  ssh_destination = name;
  ssh_executable = "ssh";
  ssh_options = [];
  workspace_root = "/work";
}

abbrev pub watchdog_config : WatchdogConfig
watchdog_config = record {
  enabled = true;
  check_interval_ms = 10;
  stall_threshold_ms = 100;
  execution_stall_threshold_ms = 100;
  pr_follow_through_stall_threshold_ms = 200;
  max_recovery_attempts = 1;
}

abbrev pub green_check : PullRequestCheck
green_check = record { name = "ci"; status = success; conclusion = none; details_url = none }

abbrev pub handle : PullRequestHandle
handle = record {
  number = 7;
  url = "https://example.org/pull/7";
  branch_name = "symphony/7";
  head_sha = some "abc";
  latest_commit_at = some "2025-01-01T00:00:00.000Z";
  merged_at = none;
}

-- A green pull request with the given checks.
abbrev pub green_with : List PullRequestCheck → PullRequestSnapshot
green_with checks = record {
  branch_name = "symphony/7";
  pull_request = handle;
  landing_state = open_pr;
  draft = false;
  mergeable = some true;
  merge_state_status = some "clean";
  has_landing_command = true;
  landing_command = none;
  checks = checks;
  pending_check_names = [];
  failing_check_names = [];
  actionable_review_feedback = [];
  bot_actionable_review_feedback = [];
  unresolved_thread_ids = [];
  reviewer_apps = [];
  reviewer_verdict = no_blocking_verdict;
  blocking_reviewer_keys = [];
  required_reviewer_state = not_required;
  observed_reviewer_keys = [];
}
