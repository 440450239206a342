-- ===== src/Tests/Pressure.antt =====
-- Two issues with dispatch pressure, the backoff of a report, and landing attempts. Times are
-- written in unary here, a text form that is read back by its length.
use Prim.Native.String
use symphony_ts.Base.{
  Bool, ◌==◌, string_eq, ℕ, suc, zero, ◌+◌, ◌≡◌, refl, ap, sym, ◌∙◌, ◌↔◌, ◌<◌, true, Bool-cases,
  inl, inr, arith, String, List, [], ◌∷◌, Option, none, some, is_some, leb, min, length,
  if◌then◌else◌, ◌*◌, ◌^◌,
}
use text.Mathlib.TextLemmas.{length-append as count-append}
use symphony_ts.Domain.Retry.{TransientFailureSignal, rate_limit}
use symphony_ts.Orchestrator.DispatchPressure.{
  create_dispatch_pressure_state, get_active_dispatch_pressure,
}
use symphony_ts.Orchestrator.DispatchPressure.Laws.{
  Op, activate, clear, run, ReadsBack, pauses_until, paused_iff,
}
use symphony_ts.Orchestrator.TerminalReporting.{
  create_terminal_issue_reporting_runtime_state, clear_terminal_issue_reporting_state,
  is_terminal_issue_reporting_due, schedule_terminal_issue_reporting_retry,
}
use symphony_ts.Orchestrator.TerminalReporting.Laws.{fail_at, schedule-fail_at}
use symphony_ts.Orchestrator.Landing.{
  create_landing_runtime_state, should_execute_landing, is_other_head,
}
use symphony_ts.Orchestrator.Landing.Laws
use symphony_ts.Orchestrator.Landing.Laws.{should_execute-run, last_head, attempt}

abbrev signal_until : ℕ → TransientFailureSignal
signal_until t = record {
  retry_class = rate_limit;
  reason = "rate limit";
  observed_at = "";
  resume_at = some t;
  rate_limits = none;
}

abbrev unary : ℕ → String
unary zero = ""
unary (suc t) = String.◌++◌ "." (unary t)

-- Times from 1000 on are out of range.
abbrev to_iso : ℕ → Option String
to_iso t = if leb 1000 t then none else some (unary t)

abbrev date_parse : String → Option ℕ
date_parse text = some (String.count text)

count-unary : (t : ℕ) → String.count (unary t) ≡ t
count-unary zero = refl
count-unary (suc t) = omega (arith, count-append "." (unary t), count-unary t)

read_back : (t : ℕ) (text : String) → to_iso t ≡ some text → date_parse text ≡ some t
read_back t text e = elim (Bool-cases (leb 1000 t)) [
  | inl far ↦ ground arith
  | inr near ↦
      let same : unary t ≡ text = ground arith in
      ap (λ s. some (String.count s)) (sym same) ∙ ap some (count-unary t)
]

reads_back : ReadsBack date_parse to_iso
reads_back = record { parsed = λ {t} {text} e. read_back t text e }

abbrev pressures : List Op
pressures =
    activate 3 (signal_until 9) 1
    ∷ activate 4 (signal_until 2000) 2
    ∷ activate 4 (signal_until 5) 2
    ∷ clear (some 3)
    ∷ []

paused_iff_example :
    (is_some (
        get_active_dispatch_pressure date_parse to_iso
          (run date_parse to_iso create_dispatch_pressure_state pressures)
          4)
      ≡ true)
    ↔ ((n : ℕ) × ((t : ℕ) × ((pauses_until date_parse to_iso n none pressures ≡ some t) × (4 < t))))
paused_iff_example = paused_iff date_parse to_iso reads_back pressures 4

schedule-fail_at_example :
    let failed =
      fail_at
        (clear_terminal_issue_reporting_state create_terminal_issue_reporting_runtime_state 3)
        3
        10
        50
        (1 ∷ 20 ∷ []) in
    is_terminal_issue_reporting_due
      (schedule_terminal_issue_reporting_retry failed 3 100 10 50).1
      3
      139
    ≡ leb (100 + (if leb 10 0 then 0 else min (10 * 2 ^ length {A = ℕ} (1 ∷ 20 ∷ [])) 50)) 139
schedule-fail_at_example =
    schedule-fail_at create_terminal_issue_reporting_runtime_state 3 10 50 100 139 (1 ∷ 20 ∷ [])

abbrev landings : List Laws.Op
landings = attempt 3 (some "abc") ∷ Laws.clear 4 ∷ attempt 3 (some "def") ∷ []

should_execute-run_example :
    should_execute_landing (Laws.run create_landing_runtime_state landings) 3 (some "abc")
    ≡ is_other_head (last_head 3 none landings) (some "abc")
should_execute-run_example = should_execute-run 3 (some "abc") landings

abbrev same_text : String → String → Bool
same_text pattern message = pattern == message
