-- ===== src/Domain/Workflow.antt =====
-- src/domain/workflow.ts: the parts of the configuration that the modelled components read. Times
-- and counts are natural numbers: the workflow parser takes nothing else.
use symphony_ts.Base.{ℕ, String, Bool, Option, List}
use symphony_ts.Base.Int.{ℤ}
use symphony_ts.Base.Dict.{Dict}

pub record QueuePriorityConfig : Type 0 where
  pub enabled : Bool

pub record GitHubQueuePriorityConfig : Type 0 where
  pub enabled : Bool
  pub project_number : Option ℕ
  pub field_name : Option String
  pub option_rank_map : Option (Dict String ℤ)

pub record GitHubReviewerAppConfig : Type 0 where
  pub key : String
  pub accepted : Bool
  pub required : Bool

pub record WatchdogConfig : Type 0 where
  pub enabled : Bool
  pub check_interval_ms : ℕ
  pub stall_threshold_ms : ℕ
  pub execution_stall_threshold_ms : ℕ
  pub pr_follow_through_stall_threshold_ms : ℕ
  pub max_recovery_attempts : ℕ

pub record RetryPolicy : Type 0 where
  pub max_attempts : ℕ
  pub backoff_ms : ℕ

pub data WorkspaceRetentionMode : Type 0 where
  delete retain : WorkspaceRetentionMode

pub record WorkspaceRetentionPolicy : Type 0 where
  pub on_success : WorkspaceRetentionMode
  pub on_failure : WorkspaceRetentionMode

pub record SshWorkerHostConfig : Type 0 where
  pub name : String
  pub ssh_destination : String
  pub ssh_executable : String
  pub ssh_options : List String
  pub workspace_root : String
