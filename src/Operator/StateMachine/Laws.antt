-- ===== src/Operator/StateMachine/Laws.antt =====
-- What every history of the operator's loop has in common.
use symphony_ts.Base.{
  ℕ, ◌+◌, ◌≤◌, ◌≡◌, refl, true, false, List, [], ◌∷◌, any, arith, if◌then◌else◌, nat_eq, filter,
  length, Bool-cases, inl, inr, is_some,
}
use symphony_ts.Operator.StateMachine.{
  OperatorRuntimeState, bootstrapping, acquiring_loop_lock, sleeping, preparing_cycle,
  acquiring_active_lease, running_command, post_cycle_refresh, recording_success, recording_failure,
  retrying, stopping, stopped, is_state, allowed_transitions, can_transition_operator_runtime_state,
  transition, move_to,
}

-- The states that a loop enters when it is moved to the given ones in turn, up to the first refusal,
-- which throws. A move to the state that it is in enters nothing.
unfoldable pub entered :
    OperatorRuntimeState → List OperatorRuntimeState → List OperatorRuntimeState
entered s [] = []
entered s (t ∷ ts) =
    let stay = entered s ts in
    let rest = entered t ts in
    if is_state s t then stay else if is_some (move_to s t) then t ∷ rest else []

abbrev pub visits : OperatorRuntimeState → List OperatorRuntimeState → ℕ
visits s trace = length (filter (is_state s) trace)

-- One where the lease is taken and the command not yet started.
abbrev owed : OperatorRuntimeState → ℕ
owed s = if is_state acquiring_active_lease s then 1 else 0

running_from :
    (s : OperatorRuntimeState)
    → can_transition_operator_runtime_state s running_command ≡ true
    → owed s ≡ 1
unfolding can_transition_operator_runtime_state allowed_transitions any
running_from bootstrapping h = cc
running_from acquiring_loop_lock h = cc
running_from sleeping h = cc
running_from preparing_cycle h = cc
running_from acquiring_active_lease h = refl
running_from running_command h = cc
running_from post_cycle_refresh h = cc
running_from recording_success h = cc
running_from recording_failure h = cc
running_from retrying h = cc
running_from stopping h = cc
running_from stopped h = cc

step-owed :
    (s t : OperatorRuntimeState)
    → can_transition_operator_runtime_state s t ≡ true
    → (if is_state running_command t then 1 else 0) + owed t
      ≤ owed s + (if is_state acquiring_active_lease t then 1 else 0)
step-owed s running_command h = omega (arith, running_from s h)
step-owed s acquiring_active_lease h = ground arith
step-owed s bootstrapping h = ground arith
step-owed s acquiring_loop_lock h = ground arith
step-owed s sleeping h = ground arith
step-owed s preparing_cycle h = ground arith
step-owed s post_cycle_refresh h = ground arith
step-owed s recording_success h = ground arith
step-owed s recording_failure h = ground arith
step-owed s retrying h = ground arith
step-owed s stopping h = ground arith
step-owed s stopped h = ground arith

move_to-can :
    (s t : OperatorRuntimeState)
    → is_state s t ≡ false
    → is_some (move_to s t) ≡ true
    → can_transition_operator_runtime_state s t ≡ true
unfolding move_to transition
move_to-can s t other h = ground arith

visits-owed :
    (s : OperatorRuntimeState) (ts : List OperatorRuntimeState)
    → visits running_command (entered s ts) ≤ owed s + visits acquiring_active_lease (entered s ts)
unfolding entered filter
visits-owed s [] = omega arith
visits-owed s (t ∷ ts) = elim (Bool-cases (is_state s t)) [
  | inl e ↦ rw e (visits-owed s ts)
  | inr other ↦ elim (Bool-cases (is_some (move_to s t))) [
    | inl e ↦
        let step = step-owed s t (move_to-can s t other e) in
        let later = visits-owed t ts in rw (other, e) (ground (arith, step, later))
    | inr e ↦ rw (other, e) (omega arith)
  ]
]

-- From the start of the operator's loop, whatever moves are asked for, the loop never enters the
-- state that runs the command more often than the one that acquires the active lease.
pub visits-entered :
    (moves : List OperatorRuntimeState)
    → visits running_command (entered bootstrapping moves)
      ≤ visits acquiring_active_lease (entered bootstrapping moves)
visits-entered moves = let bound = visits-owed bootstrapping moves in omega (arith, bound)
