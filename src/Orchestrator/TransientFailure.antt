-- ===== src/Orchestrator/TransientFailure.antt =====
-- src/orchestrator/transient-failure-policy.ts: the class of a failed run, and the dispatch pressure
-- that it makes. The two lists of regular expressions and `RegExp.prototype.test` are arguments, as are
-- `Date.parse` (none for NaN) and `toISOString`, none for the RangeError that it throws on NaN and on a
-- time out of the range of `Date`: the result is then none.
pub mod Laws
use symphony_ts.Base.{ℕ, ◌+◌, String, Bool, List, Option, none, some, any, if◌then◌else◌}
use symphony_ts.Domain.Retry.{
  RetryClass, run_failure, DispatchPressureRetryClass, rate_limit, account_pressure, to_retry_class,
  TransientFailureSignal, DispatchPressureStateSnapshot, ClassifiedTransientFailure,
}

module _ {Pattern : Type 0} (test : Pattern → String → Bool)
    (rate_limit_fallback_patterns account_pressure_fallback_patterns : List Pattern) where
  -- `classifyMessage`, with none for a failure of the run.
  unfoldable pub classify_message : String → Option DispatchPressureRetryClass
  classify_message message =
      if any (λ pattern. test pattern message) rate_limit_fallback_patterns
      then some rate_limit
      else if any (λ pattern. test pattern message) account_pressure_fallback_patterns
      then some account_pressure
      else none

module _ (date_parse : String → Option ℕ) (to_iso : ℕ → Option String) where
  -- `signal.resumeAt ?? Date.parse(observedAt) + backoffMs`, none for NaN.
  unfoldable pub resume_time : Option ℕ → String → ℕ → Option ℕ
  resume_time (some resume_at) observed_at backoff_ms = some resume_at
  resume_time none observed_at backoff_ms = elim (date_parse observed_at) [
    | none ↦ none
    | some t ↦ some (t + backoff_ms)
  ]

  -- The text of a time, none for the exception.
  abbrev pub printed : Option ℕ → Option String
  printed none = none
  printed (some t) = to_iso t

  -- The result with a pressure that resumes at the given text.
  unfoldable pub with_pressure :
      DispatchPressureRetryClass
      → String
      → String
      → String
      → Option String
      → Option ClassifiedTransientFailure
  with_pressure retry_class message reason observed_at none = none
  with_pressure retry_class message reason observed_at (some resume_at) = some (record {
    retry_class = to_retry_class retry_class;
    message = message;
    dispatch_pressure = some (record {
      retry_class = retry_class;
      reason = reason;
      observed_at = observed_at;
      resume_at = resume_at;
    });
  })

  unfoldable pub classify_by_message :
      String → Option DispatchPressureRetryClass → String → ℕ → Option ClassifiedTransientFailure
  unfolding with_pressure resume_time
  classify_by_message message none observed_at backoff_ms =
      some (record { retry_class = run_failure; message = message; dispatch_pressure = none })
  classify_by_message message (some retry_class) observed_at backoff_ms =
      with_pressure retry_class message message observed_at
        (printed (resume_time none observed_at backoff_ms))

  unfoldable pub classify_transient_failure :
      (String → Option DispatchPressureRetryClass)
      → String
      → Option TransientFailureSignal
      → String
      → ℕ
      → Option ClassifiedTransientFailure
  unfolding with_pressure resume_time classify_by_message
  classify_transient_failure classify message (some signal) observed_at backoff_ms =
      with_pressure signal.retry_class message signal.reason signal.observed_at
        (printed (resume_time signal.resume_at observed_at backoff_ms))
  classify_transient_failure classify message none observed_at backoff_ms =
      classify_by_message message (classify message) observed_at backoff_ms
