-- ===== src/Operator/StateMachine.antt =====
-- src/operator/state-machine.ts, with `moveTo` of src/operator/runtime.ts: the states of the operator's loop and the transitions between them.
-- A transition that the source refuses by an exception gives none.
pub mod Laws
use symphony_ts.Base.{ℕ, Bool, List, [], ◌∷◌, Option, none, some, any, if◌then◌else◌, ◌==◌, nat_eq}

pub data OperatorRuntimeState : Type 0 where
  bootstrapping acquiring_loop_lock sleeping preparing_cycle : OperatorRuntimeState
  acquiring_active_lease running_command post_cycle_refresh : OperatorRuntimeState
  recording_success recording_failure retrying stopping stopped : OperatorRuntimeState

unfoldable pub allowed_transitions : OperatorRuntimeState → List OperatorRuntimeState
allowed_transitions bootstrapping = acquiring_loop_lock ∷ []
allowed_transitions acquiring_loop_lock = sleeping ∷ preparing_cycle ∷ stopping ∷ []
allowed_transitions sleeping = preparing_cycle ∷ stopping ∷ []
allowed_transitions preparing_cycle = acquiring_active_lease ∷ recording_failure ∷ stopping ∷ []
allowed_transitions acquiring_active_lease = running_command ∷ recording_failure ∷ stopping ∷ []
allowed_transitions running_command = post_cycle_refresh ∷ stopping ∷ []
allowed_transitions post_cycle_refresh = recording_success ∷ recording_failure ∷ stopping ∷ []
allowed_transitions recording_success = recording_failure ∷ sleeping ∷ stopped ∷ stopping ∷ []
allowed_transitions recording_failure = retrying ∷ stopped ∷ stopping ∷ []
allowed_transitions retrying = preparing_cycle ∷ stopping ∷ []
allowed_transitions stopping = stopped ∷ []
allowed_transitions stopped = []

-- `===` on the names of the states, by their places in the type.
abbrev pub place : OperatorRuntimeState → ℕ
place bootstrapping = 0
place acquiring_loop_lock = 1
place sleeping = 2
place preparing_cycle = 3
place acquiring_active_lease = 4
place running_command = 5
place post_cycle_refresh = 6
place recording_success = 7
place recording_failure = 8
place retrying = 9
place stopping = 10
place stopped = 11

abbrev pub is_state : OperatorRuntimeState → OperatorRuntimeState → Bool
is_state a b = place a == place b

unfoldable pub can_transition_operator_runtime_state :
    OperatorRuntimeState → OperatorRuntimeState → Bool
unfolding allowed_transitions
can_transition_operator_runtime_state from to = any (is_state to) (allowed_transitions from)

-- `assertOperatorRuntimeTransition`, with the state that follows.
unfoldable pub transition :
    OperatorRuntimeState → OperatorRuntimeState → Option OperatorRuntimeState
unfolding can_transition_operator_runtime_state
transition from to = if can_transition_operator_runtime_state from to then some to else none

-- `moveTo`: nothing happens where the state is the one asked for.
unfoldable pub move_to : OperatorRuntimeState → OperatorRuntimeState → Option OperatorRuntimeState
unfolding transition
move_to runtime_state next =
    if is_state runtime_state next then some runtime_state else transition runtime_state next
