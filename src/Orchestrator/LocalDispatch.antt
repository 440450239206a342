-- ===== src/Orchestrator/LocalDispatch.antt =====
-- src/orchestrator/local-dispatch-state.ts: the issues that this process works on. A background
-- task is a promise of the runtime: the model keeps its identity, a number.
use symphony_ts.Base.{ℕ, Bool, true, false, List, [], if◌then◌else◌, nat_eq, length}
use symphony_ts.Base.Dict
use symphony_ts.Base.Dict.{Dict}
use symphony_ts.Base.Sets.{contains, add, remove}

pub record LocalDispatchRuntimeState : Type 0 where
  pub reserved_issue_numbers : List ℕ
  pub background_tasks : Dict ℕ ℕ

unfoldable pub create_local_dispatch_runtime_state : LocalDispatchRuntimeState
create_local_dispatch_runtime_state = record { reserved_issue_numbers = []; background_tasks = [] }

unfoldable pub count_reserved_local_dispatches : LocalDispatchRuntimeState → ℕ
count_reserved_local_dispatches state = length state.reserved_issue_numbers

unfoldable pub has_reserved_local_dispatch : LocalDispatchRuntimeState → ℕ → Bool
has_reserved_local_dispatch state issue_number = contains state.reserved_issue_numbers issue_number

unfoldable pub reserve_local_dispatch :
    LocalDispatchRuntimeState → ℕ → Bool × LocalDispatchRuntimeState
reserve_local_dispatch state issue_number =
    if contains state.reserved_issue_numbers issue_number then (false, state) else (
      true,
      record state { reserved_issue_numbers = add state.reserved_issue_numbers issue_number },
    )

unfoldable pub note_background_dispatch_task :
    LocalDispatchRuntimeState → ℕ → ℕ → LocalDispatchRuntimeState
note_background_dispatch_task state issue_number task = record state {
  background_tasks = Dict.set state.background_tasks issue_number task;
}

unfoldable pub release_local_dispatch : LocalDispatchRuntimeState → ℕ → LocalDispatchRuntimeState
release_local_dispatch state issue_number = record {
  reserved_issue_numbers = remove state.reserved_issue_numbers issue_number;
  background_tasks = Dict.delete state.background_tasks issue_number;
}

unfoldable pub list_reserved_local_dispatches : LocalDispatchRuntimeState → List ℕ
list_reserved_local_dispatches state = state.reserved_issue_numbers

unfoldable pub list_background_dispatch_tasks : LocalDispatchRuntimeState → List ℕ
list_background_dispatch_tasks state = Dict.values state.background_tasks
