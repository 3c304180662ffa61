-- ===== src/Retry.antt =====
-- lib/stellar/retry.ts: bounded retries of SEP operations. `Retry/Header` parses Retry-After,
-- `Retry/Classify` tells retryable failures, `Retry/Delay` computes the waits and `Retry/Loop` is
-- `withSepRetry`; `Retry/Budget` and `Retry/Trace` prove what the loop keeps to.
pub mod Header
pub mod Classify
pub mod Delay
pub mod Loop
pub mod Budget
pub mod Trace
mod Tests
use stellar_core.Prelude.{ℕ, Option}
use stellar_core.Prelude.Int.{ℤ}

-- Durations are whole milliseconds.
pub record SepRetryPolicy : Type 0 where
  pub max_attempts : ℕ
  pub base_delay_ms : ℕ
  pub max_delay_ms : ℕ
  pub deadline_ms : ℕ
  pub max_retry_after_ms : ℕ

abbrev pub default_sep_retry_policy : SepRetryPolicy
default_sep_retry_policy = record {
  max_attempts = 3;
  base_delay_ms = 100;
  max_delay_ms = 2000;
  deadline_ms = 10000;
  max_retry_after_ms = 5000;
}

-- `ErrorClassificationResult`: a classifier may attach any delay, or none, to the third kind.
pub data ErrorClassification : Type 0 where
  retryable non_retryable : ErrorClassification
  retryable_with_retry_after : Option ℤ → ErrorClassification
