-- ===== src/Tests/Operator.antt =====
-- One cycle of the operator's loop, and moves after its end.
use symphony_ts.Base.{◌≤◌, ◌≡◌, refl, List, [], ◌∷◌, any}
use symphony_ts.Operator.StateMachine.{
  OperatorRuntimeState, bootstrapping, acquiring_loop_lock, preparing_cycle, acquiring_active_lease,
  running_command, post_cycle_refresh, recording_success, stopping, stopped, move_to, transition,
  can_transition_operator_runtime_state, allowed_transitions,
}
use symphony_ts.Operator.StateMachine.Laws.{entered, visits, visits-entered}

abbrev one_cycle : List OperatorRuntimeState
one_cycle =
    acquiring_loop_lock ∷ preparing_cycle ∷ acquiring_active_lease ∷ running_command
    ∷ running_command ∷ post_cycle_refresh ∷ recording_success ∷ stopping ∷ stopped ∷ []

skips_refused : entered preparing_cycle (running_command ∷ stopping ∷ []) ≡ []
unfolding entered move_to transition can_transition_operator_runtime_state allowed_transitions any
skips_refused = refl

visits-entered_example :
    visits running_command (entered bootstrapping one_cycle)
    ≤ visits acquiring_active_lease (entered bootstrapping one_cycle)
visits-entered_example = visits-entered one_cycle
