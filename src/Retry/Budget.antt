-- ===== src/Retry/Budget.antt =====
-- lib/stellar/retry.ts: `withSepRetry` ends, within its budget of attempts and sleeps.
use stellar_core.Prelude.{
  ℕ, suc, ◌+◌, ◌≤◌, ◌<◌, max, ◌≡◌, inl, inr, Bool, ◌||◌, Option, none, some, arith, Bool-cases,
  length, zero, refl, ◌≢◌, true, false,
}
use stellar_core.Prelude.Int.{ℤ, pos}
use stellar_core.Prelude.Predicates.{All}
use stellar_core.Prelude.Result.{Result, ok, throws}
use stellar_core.Errors.{ThrownObject, Thrown}
use stellar_core.Retry.{
  SepRetryPolicy, ErrorClassification, retryable, non_retryable, retryable_with_retry_after,
}
use stellar_core.Retry.Delay.{
  Random, IsUnit, calculate_sep_retry_delay, calculate_sep_retry_delay_bounds,
}
use stellar_core.Retry.Loop.{
  Attempt, Ending, Run, context_retry_after, stop, slept, retry, decide, decide_retry,
  decide_classified, retry_loop, Settled, resolved, rejected, aborted_ending, to_error, Decision,
  cancel, give_up, fail_first, exhaust, after_decision, after_attempt, with_sep_retry, escape,
  pending, option_threw, hung, raced, run_attempt, after_on_retry, UserPolicy, merge_policy,
}

-- The longest sleep that a policy allows.
abbrev pub longest_delay : SepRetryPolicy → ℕ
longest_delay p = max p.max_delay_ms p.max_retry_after_ms

-- What a run that begins with attempt `first` keeps to.
pub record IsBounded {ℓ} {A : Type ℓ} (p : SepRetryPolicy) (first : ℕ) (r : Run A) : Type 0 where
  pub from_first : first ≤ r.attempts
  pub within_budget : r.attempts ≤ max first p.max_attempts
  pub one_sleep_each : length r.delays + first ≤ r.attempts + 1
  pub short_sleeps : All (λ d. d ≤ longest_delay p) r.delays

module _ {ℓ} {A : Type ℓ} (policy : SepRetryPolicy) (with_timeout : Bool)
    (classify : ℕ → ThrownObject → Result Thrown ErrorClassification) (deadline : ℕ)
    (env : ℕ → Attempt A) (units : (k : ℕ) → IsUnit (env k).random)
    (settles : with_timeout ≡ false → (k : ℕ) → (env k).callback ≢ pending) where
  delay-le-longest :
      (attempt : ℕ) (c : Option ℤ) (r : Random)
      → IsUnit r
      → calculate_sep_retry_delay policy attempt c r ≤ longest_delay policy
  delay-le-longest attempt none r u =
      omega (arith, (calculate_sep_retry_delay_bounds policy attempt (pos 0) r u).2)
  delay-le-longest attempt (some ms) r u =
      omega (arith, (calculate_sep_retry_delay_bounds policy attempt ms r u).3)

  decide_retry-delay :
      (attempt : ℕ) (c : ErrorClassification) (d : ℕ)
      → decide_retry policy with_timeout classify deadline env attempt c ≡ retry d
      → (attempt < policy.max_attempts) × (d ≤ longest_delay policy)
  unfolding decide_retry
  decide_retry-delay attempt c d h = ground (
    arith,
    delay-le-longest attempt (context_retry_after policy c) (env attempt).random (units attempt),
  )

  decide_classified-delay :
      (attempt : ℕ) (c : Result Thrown ErrorClassification) (d : ℕ)
      → decide_classified policy with_timeout classify deadline env attempt c ≡ retry d
      → (attempt < policy.max_attempts) × (d ≤ longest_delay policy)
  unfolding decide_classified
  decide_classified-delay attempt (throws e) d h = cc
  decide_classified-delay attempt (ok non_retryable) d h = cc
  decide_classified-delay attempt (ok retryable) d h = decide_retry-delay attempt retryable d h
  decide_classified-delay attempt (ok (retryable_with_retry_after ms)) d h =
      decide_retry-delay attempt (retryable_with_retry_after ms) d h

  decide-delay :
      (attempt : ℕ) (e : ThrownObject) (d : ℕ)
      → decide policy with_timeout classify deadline env attempt e ≡ retry d
      → (attempt < policy.max_attempts) × (d ≤ longest_delay policy)
  unfolding decide
  decide-delay attempt e d h = elim (Bool-cases ((env attempt).aborted || e.is_abort)) [
    | inl cancelled ↦ absurd (ground arith)
    | inr open_signal ↦ decide_classified-delay attempt (classify attempt e) d (rw open_signal at h)
  ]

  stop-IsBounded : (attempt : ℕ) (e : Ending A) → IsBounded policy attempt (stop attempt e)
  stop-IsBounded attempt e = ground arith

  slept-IsBounded :
      (attempt d : ℕ) (r : Run A)
      → attempt < policy.max_attempts
      → d ≤ longest_delay policy
      → IsBounded policy (suc attempt) r
      → IsBounded policy attempt (slept d r)
  slept-IsBounded attempt d r below short b = ground arith

  -- The runs that the rest of the loop may give.
  abbrev EndsWithin : ℕ → Option (Run A) → Type ℓ
  EndsWithin first o = (r : Run A) × (o ≡ some r) × IsBounded policy first r × (r.ending ≢ hung)

  stop-EndsWithin :
      (attempt : ℕ) (e : Ending A) → e ≢ hung → EndsWithin attempt (some (stop attempt e))
  stop-EndsWithin attempt e n = (_, refl, stop-IsBounded attempt e, n)

  after_on_retry-EndsWithin :
      (attempt delay : ℕ) (rest : Option (Run A)) (o : Option Thrown)
      → attempt < policy.max_attempts
      → delay ≤ longest_delay policy
      → EndsWithin (suc attempt) rest
      → EndsWithin attempt
          (after_on_retry policy with_timeout classify deadline env attempt delay rest o)
  unfolding after_on_retry
  after_on_retry-EndsWithin attempt delay rest (some e) below short h =
      stop-EndsWithin attempt (option_threw e) (λ f. cc)
  after_on_retry-EndsWithin attempt delay rest none below short (r, found, b, n) =
      elim (Bool-cases (env attempt).aborted_in_sleep) [
        | inl asleep ↦
            (slept delay (stop attempt aborted_ending), rw asleep refl, ground arith, λ f. cc)
        | inr awake ↦ (
          slept delay r,
          rw (awake, found) refl,
          slept-IsBounded attempt delay r below short b,
          n,
        )
      ]

  after_decision-EndsWithin :
      (attempt : ℕ) (e : ThrownObject) (rest : Option (Run A)) (d : Decision)
      → ((delay : ℕ)
          → d ≡ retry delay
          → (attempt < policy.max_attempts)
            × (delay ≤ longest_delay policy)
            × EndsWithin (suc attempt) rest)
      → EndsWithin attempt
          (after_decision policy with_timeout classify deadline env attempt e rest d)
  unfolding after_decision
  after_decision-EndsWithin attempt e rest cancel h = stop-EndsWithin attempt _ (λ f. cc)
  after_decision-EndsWithin attempt e rest give_up h = stop-EndsWithin attempt _ (λ f. cc)
  after_decision-EndsWithin attempt e rest fail_first h = stop-EndsWithin attempt _ (λ f. cc)
  after_decision-EndsWithin attempt e rest exhaust h = stop-EndsWithin attempt _ (λ f. cc)
  after_decision-EndsWithin attempt e rest (escape t) h = stop-EndsWithin attempt _ (λ f. cc)
  after_decision-EndsWithin attempt e rest (retry delay) h =
      let (below, short, later) = h delay refl in
      after_on_retry-EndsWithin attempt delay rest _ below short later

  raced-settles : (b : Bool) (s : Settled A) → raced b s ≢ pending
  unfolding raced
  raced-settles b pending = λ e. cc
  raced-settles true (resolved v) = λ e. cc
  raced-settles false (resolved v) = λ e. cc
  raced-settles true (rejected t) = λ e. cc
  raced-settles false (rejected t) = λ e. cc

  attempt-settles : (b : Bool) (k : ℕ) → with_timeout ≡ b → run_attempt b (env k) ≢ pending
  unfolding run_attempt
  attempt-settles true k t = raced-settles (env k).timer_first (env k).callback
  attempt-settles false k t = settles t k

  after_attempt-EndsWithin :
      (attempt : ℕ) (rest : Option (Run A)) (s : Settled A)
      → s ≢ pending
      → (attempt < policy.max_attempts → EndsWithin (suc attempt) rest)
      → EndsWithin attempt (after_attempt policy with_timeout classify deadline env attempt rest s)
  unfolding after_attempt
  after_attempt-EndsWithin attempt rest pending n h = absurd (n refl)
  after_attempt-EndsWithin attempt rest (resolved v) n h = stop-EndsWithin attempt _ (λ f. cc)
  after_attempt-EndsWithin attempt rest (rejected error) n h =
      after_decision-EndsWithin attempt (to_error error) rest _ (λ delay e.
        let (below, short) = decide-delay attempt (to_error error) delay e in
        (below, short, h below))

  retry_loop-EndsWithin :
      (fuel attempt : ℕ)
      → max attempt policy.max_attempts < attempt + fuel
      → EndsWithin attempt (retry_loop policy with_timeout classify deadline env fuel attempt)
  unfolding retry_loop
  retry_loop-EndsWithin zero attempt enough = absurd (omega arith)
  retry_loop-EndsWithin (suc fuel) attempt enough =
      after_attempt-EndsWithin attempt _ _ (attempt-settles with_timeout attempt refl)
        (λ below. retry_loop-EndsWithin fuel (suc attempt) (omega arith))

-- `withSepRetry` ends, whatever the clock, the signals, the classifier and `onRetry` do, where there
-- is a timeout for each attempt or every promise of the callback settles: after at least one attempt
-- and at most `maxAttempts` (one, if that is 0), with at most one sleep for each attempt, none of
-- them longer than `maxDelayMs` and `maxRetryAfterMs` allow. The random source is assumed to return
-- numbers in [0, 1].
pub with_sep_retry-IsBounded {ℓ} :
    {A : Type ℓ} (user_policy : UserPolicy) (with_timeout : Bool)
    (classify : ℕ → ThrownObject → Result Thrown ErrorClassification) (started : ℕ)
    (env : ℕ → Attempt A)
    → ((k : ℕ) → IsUnit (env k).random)
    → (with_timeout ≡ false → (k : ℕ) → (env k).callback ≢ pending)
    → (r : Run A) × (with_sep_retry user_policy with_timeout classify started env ≡ some r)
      × IsBounded (merge_policy user_policy) 1 r
      × (r.ending ≢ hung)
unfolding with_sep_retry
with_sep_retry-IsBounded user_policy with_timeout classify started env units settles =
    let policy = merge_policy user_policy in
    retry_loop-EndsWithin policy with_timeout classify (started + policy.deadline_ms) env units
      settles (suc policy.max_attempts) 1 (omega arith)
