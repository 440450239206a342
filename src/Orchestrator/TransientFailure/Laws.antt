-- ===== src/Orchestrator/TransientFailure/Laws.antt =====
-- When the classification of a failure throws.
use symphony_ts.Base.{ℕ, Bool, true, Option, none, some}
use symphony_ts.Domain.Retry.{TransientFailureSignal}

-- Whether a failure makes dispatch pressure.
abbrev pub presses : Option TransientFailureSignal → Bool → Bool
presses none by_message = by_message
presses (some signal) by_message = true

abbrev pub given_resume : Option TransientFailureSignal → Option ℕ
given_resume none = none
given_resume (some signal) = signal.resume_at
