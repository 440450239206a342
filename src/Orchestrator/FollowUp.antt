-- ===== src/Orchestrator/FollowUp.antt =====
-- src/orchestrator/follow-up-state.ts: the sequence number of an issue's next run.
use symphony_ts.Base.{ℕ, ◌+◌, or_else, nat_eq}
use symphony_ts.Base.Dict
use symphony_ts.Base.Dict.{Dict}
use mathlib.Core.List.{[]}
use mathlib.Core.Option.{Option, none, some}

pub record FollowUpRuntimeState : Type 0 where
  pub next_run_sequence_by_issue_number : Dict ℕ ℕ

unfoldable pub create_follow_up_runtime_state : FollowUpRuntimeState
create_follow_up_runtime_state = record { next_run_sequence_by_issue_number = [] }

-- `a ?? b`, on two lookups.
abbrev pub first_found : Option ℕ → Option ℕ → Option ℕ
first_found (some a) b = some a
first_found none b = b

unfoldable pub resolve_run_sequence : FollowUpRuntimeState → ℕ → Dict ℕ ℕ → ℕ
resolve_run_sequence state issue_number retry_attempts =
    or_else
      (first_found (Dict.get retry_attempts issue_number)
        (Dict.get state.next_run_sequence_by_issue_number issue_number))
      1

unfoldable pub clear_follow_up_runtime_state : FollowUpRuntimeState → ℕ → FollowUpRuntimeState
clear_follow_up_runtime_state state issue_number = record {
  next_run_sequence_by_issue_number =
      Dict.delete state.next_run_sequence_by_issue_number issue_number;
}

-- The observed lifecycle is an argument that the function does not read.
unfoldable pub note_lifecycle_observation : FollowUpRuntimeState → ℕ → ℕ → FollowUpRuntimeState
note_lifecycle_observation state issue_number attempt = record {
  next_run_sequence_by_issue_number =
      Dict.set state.next_run_sequence_by_issue_number issue_number (attempt + 1);
}
