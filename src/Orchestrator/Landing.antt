-- ===== src/Orchestrator/Landing.antt =====
-- src/orchestrator/landing-state.ts: the head for which a landing was last attempted.
pub mod Laws
use symphony_ts.Base.{
  ℕ, String, Bool, true, not, [], Option, none, some, if◌then◌else◌, ◌==◌, nat_eq, string_eq,
  option_eq,
}
use symphony_ts.Base.Dict
use symphony_ts.Base.Dict.{Dict}

pub record LandingRuntimeState : Type 0 where
  pub attempted_head_sha_by_issue_number : Dict ℕ (Option String)

unfoldable pub create_landing_runtime_state : LandingRuntimeState
create_landing_runtime_state = record { attempted_head_sha_by_issue_number = [] }

unfoldable pub clear_landing_runtime_state : LandingRuntimeState → ℕ → LandingRuntimeState
clear_landing_runtime_state state issue_number = record {
  attempted_head_sha_by_issue_number =
      Dict.delete state.attempted_head_sha_by_issue_number issue_number;
}

-- `get(issueNumber) !== headSha`, where a missing key gives `undefined`, which is no head.
abbrev pub is_other_head : Option (Option String) → Option String → Bool
is_other_head none head_sha = true
is_other_head (some attempted) head_sha = not (attempted == head_sha)

unfoldable pub should_execute_landing : LandingRuntimeState → ℕ → Option String → Bool
should_execute_landing state issue_number head_sha =
    if not (Dict.has state.attempted_head_sha_by_issue_number issue_number)
    then true
    else is_other_head (Dict.get state.attempted_head_sha_by_issue_number issue_number) head_sha

unfoldable pub note_landing_attempt : LandingRuntimeState → ℕ → Option String → LandingRuntimeState
note_landing_attempt state issue_number head_sha = record {
  attempted_head_sha_by_issue_number =
      Dict.set state.attempted_head_sha_by_issue_number issue_number head_sha;
}
