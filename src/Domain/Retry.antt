-- ===== src/Domain/Retry.antt =====
-- src/domain/retry.ts and src/domain/transient-failure.ts: retries and dispatch pressure.
-- Times are milliseconds since the epoch, natural numbers; a `String` is an ISO text.
use symphony_ts.Base.{ℕ, String, Option}
use symphony_ts.Domain.Issue.{RuntimeIssue}

pub data RetryClass : Type 0 where
  run_failure provider_rate_limit provider_account_pressure missing_target : RetryClass
  watchdog_abort unexpected_orchestrator_failure : RetryClass

pub record RetryState : Type 0 where
  pub issue : RuntimeIssue
  pub run_sequence : ℕ
  pub failure_retry_attempt : ℕ
  pub next_attempt : ℕ
  pub preferred_host : Option String
  pub retry_class : RetryClass
  pub scheduled_at : ℕ
  pub backoff_ms : ℕ
  pub due_at : ℕ
  pub last_error : String

-- `Extract<RetryClass, …>`.
pub data DispatchPressureRetryClass : Type 0 where
  rate_limit account_pressure : DispatchPressureRetryClass

unfoldable pub to_retry_class : DispatchPressureRetryClass → RetryClass
to_retry_class rate_limit = provider_rate_limit
to_retry_class account_pressure = provider_account_pressure

pub record RateLimitBucket : Type 0 where
  pub used : ℕ
  pub limit : ℕ
  pub reset_in_ms : ℕ

pub record RateLimits : Type 0 where
  pub limit_id : Option String
  pub primary : Option RateLimitBucket
  pub secondary : Option RateLimitBucket
  pub credits : Option String

pub record TransientFailureSignal : Type 0 where
  pub retry_class : DispatchPressureRetryClass
  pub reason : String
  pub observed_at : String
  pub resume_at : Option ℕ
  pub rate_limits : Option RateLimits

pub record DispatchPressureStateSnapshot : Type 0 where
  pub retry_class : DispatchPressureRetryClass
  pub reason : String
  pub observed_at : String
  pub resume_at : String

pub record ClassifiedTransientFailure : Type 0 where
  pub retry_class : RetryClass
  pub message : String
  pub dispatch_pressure : Option DispatchPressureStateSnapshot
