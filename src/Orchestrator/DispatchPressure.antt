-- ===== src/Orchestrator/DispatchPressure.antt =====
-- src/orchestrator/dispatch-pressure-state.ts: the pause that rate limits put on dispatch.
-- `date_parse` stands for `Date.parse`, with none for NaN, and `to_iso` for `toISOString`, with none
-- for the RangeError on a time that is out of the range of `Date`; the default times are `now`.
pub mod Laws
use symphony_ts.Base.{
  ℕ, String, Bool, false, List, [], ◌∷◌, Option, none, some, ltb, or_else, if◌then◌else◌, nat_eq,
}
use symphony_ts.Base.Dict
use symphony_ts.Base.Dict.{Dict}
use symphony_ts.Domain.Retry.{TransientFailureSignal, DispatchPressureStateSnapshot}

pub record DispatchPressureRuntimeState : Type 0 where
  pub current : Option DispatchPressureStateSnapshot
  pub contributors : Dict ℕ DispatchPressureStateSnapshot

unfoldable pub create_dispatch_pressure_state : DispatchPressureRuntimeState
create_dispatch_pressure_state = record { current = none; contributors = [] }

pub data Transition : Type 0 where
  activated extended : Transition

-- `a > b` on parsed dates, which a NaN makes false.
abbrev pub is_later : Option ℕ → Option ℕ → Bool
is_later (some a) (some b) = ltb b a
is_later _ _ = false

module _ (date_parse : String → Option ℕ) (to_iso : ℕ → Option String) where
  unfoldable pub resumes_after : ℕ → DispatchPressureStateSnapshot → Bool
  resumes_after now pressure = is_later (date_parse pressure.resume_at) (some now)

  unfoldable pub active_part :
      Option DispatchPressureStateSnapshot → ℕ → Option DispatchPressureStateSnapshot
  unfolding resumes_after
  active_part none now = none
  active_part (some current) now = if resumes_after now current then some current else none

  unfoldable pub get_active_dispatch_pressure :
      DispatchPressureRuntimeState → ℕ → Option DispatchPressureStateSnapshot
  unfolding active_part
  get_active_dispatch_pressure state now = active_part state.current now

  -- The loop of `selectCurrentDispatchPressure`, with the current one so far.
  unfoldable pub select_loop :
      Option DispatchPressureStateSnapshot
      → List DispatchPressureStateSnapshot
      → Option DispatchPressureStateSnapshot
  select_loop current [] = current
  select_loop none (pressure ∷ rest) = select_loop (some pressure) rest
  select_loop (some current) (pressure ∷ rest) =
      select_loop
        (some (
          if is_later (date_parse pressure.resume_at) (date_parse current.resume_at)
          then pressure
          else current))
        rest

  unfoldable pub select_current_dispatch_pressure :
      Dict ℕ DispatchPressureStateSnapshot → Option DispatchPressureStateSnapshot
  unfolding select_loop
  select_current_dispatch_pressure contributors = select_loop none (Dict.values contributors)

  abbrev pub pressure_at :
      TransientFailureSignal → Option String → Option DispatchPressureStateSnapshot
  pressure_at signal none = none
  pressure_at signal (some resume_at) = some (record {
    retry_class = signal.retry_class;
    reason = signal.reason;
    observed_at = signal.observed_at;
    resume_at = resume_at;
  })

  unfoldable pub next_pressure : TransientFailureSignal → ℕ → Option DispatchPressureStateSnapshot
  next_pressure signal now = pressure_at signal (to_iso (or_else signal.resume_at now))

  abbrev pub transition_of :
      Option DispatchPressureStateSnapshot → Option DispatchPressureStateSnapshot → Transition
  transition_of (some previous) (some current) = extended
  transition_of _ _ = activated

  -- The rest of `activateDispatchPressure`, with the pressure that it makes first.
  unfoldable pub contribute :
      DispatchPressureRuntimeState
      → ℕ
      → DispatchPressureStateSnapshot
      → (Transition × DispatchPressureStateSnapshot) × DispatchPressureRuntimeState
  unfolding select_current_dispatch_pressure
  contribute state issue_number next =
      let contributors = Dict.set state.contributors issue_number next in
      let current = select_current_dispatch_pressure contributors in
      (
        (transition_of state.current current, or_else current next),
        record { current = current; contributors = contributors },
      )

  abbrev pub contribute_or_throw :
      DispatchPressureRuntimeState
      → ℕ
      → Option DispatchPressureStateSnapshot
      → Option (Transition × DispatchPressureStateSnapshot) × DispatchPressureRuntimeState
  contribute_or_throw state issue_number none = (none, state)
  contribute_or_throw state issue_number (some next) =
      let (answer, after) = contribute state issue_number next in (some answer, after)

  -- An exception, before the state is changed, answers none.
  unfoldable pub activate_dispatch_pressure :
      DispatchPressureRuntimeState
      → ℕ
      → TransientFailureSignal
      → ℕ
      → Option (Transition × DispatchPressureStateSnapshot) × DispatchPressureRuntimeState
  unfolding next_pressure contribute
  activate_dispatch_pressure state issue_number signal now =
      contribute_or_throw state issue_number (next_pressure signal now)

  -- `clearDispatchPressure` with no issue number, and with one.
  unfoldable pub clear_dispatch_pressure :
      DispatchPressureRuntimeState → Option ℕ → DispatchPressureRuntimeState
  unfolding select_current_dispatch_pressure
  clear_dispatch_pressure state none = record { current = none; contributors = [] }
  clear_dispatch_pressure state (some issue_number) =
      let contributors = Dict.delete state.contributors issue_number in
      record {
        current = select_current_dispatch_pressure contributors;
        contributors = contributors;
      }
