-- ===== src/Retry/Tests.antt =====
-- Runs of the retry loop.
use stellar_core.Prelude.{
  ℕ, ◌≡◌, refl, ◌≢◌, ◌↔◌, true, false, Option, none, some, [], ◌∷◌, arith, ltb, if◌then◌else◌,
}
use stellar_core.Prelude.Int.{ℤ, pos}
use stellar_core.Prelude.Result.{Result, ok}
use stellar_core.Prelude.Text.{Text, codes, all_digits}
use stellar_core.Decimal.{digits_value}
use stellar_core.Errors.{timeout, http_failure, ThrownObject, object, Thrown}
use stellar_core.Retry.{ErrorClassification, non_retryable}
use stellar_core.Retry.Budget.{IsBounded, with_sep_retry-IsBounded}
use stellar_core.Retry.Classify.{
  classify_sep1_error, classify_sep38_error, IsTransient, classifiers_retry_iff,
}
use stellar_core.Retry.Delay.{Random, calculate_sep_retry_delay}
use stellar_core.Retry.Header.{parse_retry_after}
use stellar_core.Retry.Loop.{
  resolved, rejected, Attempt, returned, Run, to_error, context_retry_after, run_attempt, decide,
  after_attempt, retry_loop, with_sep_retry, hung, UserPolicy, merge_policy,
}
use stellar_core.Retry.Trace.{IsExplained, with_sep_retry-IsExplained}

abbrev no_dates : Text → Option ℤ
no_dates t = none

abbrev half_random : Random
half_random = record { numerator = 1; denominator = 2 }

abbrev timed_out : ThrownObject
timed_out = record {
  is_error = true;
  is_abort = false;
  code = some timeout;
  status = none;
  retry_after = none;
}

abbrev limited : ThrownObject
limited = record {
  is_error = true;
  is_abort = false;
  code = some http_failure;
  status = some 429;
  retry_after = some (codes " 120 ");
}

abbrev failing : Attempt ℕ
failing = record {
  callback = rejected (object timed_out);
  timer_first = false;
  aborted = false;
  now = 50;
  on_retry_throws = none;
  random = half_random;
  aborted_in_sleep = false;
}

-- The first two attempts fail, the third one returns 7.
abbrev third_time : ℕ → Attempt ℕ
third_time k = record failing {
  callback = if ltb k 3 then rejected (object timed_out) else resolved 7;
}

abbrev sep1 : ℕ → ThrownObject → Result Thrown ErrorClassification
sep1 k e = ok (classify_sep1_error no_dates (pos 0) (object e))

abbrev no_options : UserPolicy
no_options = record {
  user_max_attempts = none;
  user_base_delay_ms = none;
  user_max_delay_ms = none;
  user_deadline_ms = none;
  user_max_retry_after_ms = none;
}

abbrev third_run : Run ℕ
third_run = record { ending = returned 7; attempts = 3; delays = 75 ∷ 150 ∷ [] }

third_time_runs : with_sep_retry no_options true sep1 0 third_time ≡ some third_run
unfolding with_sep_retry merge_policy retry_loop after_attempt run_attempt decide
    context_retry_after calculate_sep_retry_delay classify_sep1_error to_error
third_time_runs = refl

with_sep_retry-IsBounded_example :
    (r : Run ℕ) × (with_sep_retry no_options true sep1 0 third_time ≡ some r)
    × IsBounded (merge_policy no_options) 1 r
    × (r.ending ≢ hung)
with_sep_retry-IsBounded_example =
    with_sep_retry-IsBounded no_options true sep1 0 third_time (λ k. omega arith) (λ e. cc)

with_sep_retry-IsExplained_example :
    (r : Run ℕ) × (with_sep_retry no_options true sep1 0 third_time ≡ some r)
    × IsExplained
        (merge_policy no_options)
        true
        sep1
        (merge_policy no_options).deadline_ms
        third_time
        1
        r
unfolding merge_policy
with_sep_retry-IsExplained_example = with_sep_retry-IsExplained no_options true sep1 0 third_time

header_of_limited : parse_retry_after no_dates limited.retry_after (some 5000) (pos 0) ≡ some 5000
unfolding parse_retry_after all_digits digits_value
header_of_limited = refl

classifiers_retry_iff_example :
    ((classify_sep1_error no_dates (pos 0) (object limited) ≢ non_retryable)
      ↔ IsTransient (object limited))
    × ((classify_sep38_error no_dates (pos 0) (object limited) ≢ non_retryable)
        ↔ IsTransient (object limited))
classifiers_retry_iff_example = classifiers_retry_iff no_dates (pos 0) (object limited)
