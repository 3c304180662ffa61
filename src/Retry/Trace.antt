-- ===== src/Retry/Trace.antt =====
-- lib/stellar/retry.ts: why `withSepRetry` ends the way it does.
use stellar_core.Prelude.{
  ℕ, suc, ◌≤◌, ◌<◌, ◌≡◌, refl, sym, ◌≢◌, ◌⊎◌, inl, inr, Bool, true, false, ◌||◌, Option, some,
  arith, leb, Bool-cases, zero, ◌+◌, none, max,
}
use stellar_core.Prelude.Result.{Result, ok, throws}
use mathlib.Core.Path.{subst}
use native.Mathlib.Decide.{ℕ_discrete}
use stellar_core.Errors.{ThrownObject, Thrown}
use stellar_core.Retry.{
  SepRetryPolicy, ErrorClassification, retryable, non_retryable, retryable_with_retry_after,
}
use stellar_core.Retry.Delay.{is_sep_deadline_exceeded}
use stellar_core.Retry.Loop.{
  resolved, rejected, Attempt, Ending, returned, threw, exhausted, aborted_ending, Run, to_error,
  run_attempt, stop, slept, Decision, cancel, give_up, fail_first, exhaust, retry, decide_retry,
  decide_classified, decide, after_decision, Settled, after_attempt, retry_loop, with_sep_retry,
  escape, pending, option_threw, hung, after_on_retry, UserPolicy, merge_policy,
}

module _ {ℓ} {A : Type ℓ} (policy : SepRetryPolicy) (with_timeout : Bool)
    (classify : ℕ → ThrownObject → Result Thrown ErrorClassification) (deadline : ℕ)
    (env : ℕ → Attempt A) where
  -- The classifier allows to retry the failure.
  abbrev pub MayRetry : ℕ → ThrownObject → Type 0
  MayRetry k e = (c : ErrorClassification) × (classify k e ≡ ok c) × (c ≢ non_retryable)

  -- Neither a signal nor the error asks for the end.
  abbrev pub IsUncancelled : ℕ → ThrownObject → Type 0
  IsUncancelled k e = ((env k).aborted ≡ false) × (e.is_abort ≡ false)

  -- The attempts or the time are used up.
  abbrev pub IsSpent : ℕ → Type 0
  IsSpent k = (policy.max_attempts ≤ k) ⊎ (deadline ≤ (env k).now)

  -- The reasons that the source gives for each decision about a caught error.
  abbrev pub Because : ℕ → ThrownObject → Decision → Type 0
  Because k e cancel = ((env k).aborted ≡ true) ⊎ (e.is_abort ≡ true)
  Because k e give_up = IsUncancelled k e × (classify k e ≡ ok non_retryable)
  Because k e fail_first = IsUncancelled k e × MayRetry k e × IsSpent k × (k ≤ 1)
  Because k e (escape t) = IsUncancelled k e × (classify k e ≡ throws t)
  Because k e exhaust = IsUncancelled k e × MayRetry k e × IsSpent k × (2 ≤ k)
  Because k e (retry delay) =
      IsUncancelled k e × MayRetry k e × (k < policy.max_attempts) × ((env k).now < deadline)

  -- Attempt k failed, and the loop slept and went on.
  abbrev pub Retried : ℕ → Type ℓ
  Retried k =
      (error : Thrown) × (delay : ℕ) × (run_attempt with_timeout (env k) ≡ rejected error)
      × Because k (to_error error) (retry delay)
      × ((env k).on_retry_throws ≡ none)
      × ((env k).aborted_in_sleep ≡ false)

  -- The reasons for each ending with attempt k.
  abbrev pub Explains : ℕ → Ending A → Type ℓ
  Explains k (returned v) = run_attempt with_timeout (env k) ≡ resolved v
  Explains k (threw e) =
      (error : Thrown) × (run_attempt with_timeout (env k) ≡ rejected error)
      × (e ≡ to_error error)
      × (Because k (to_error error) give_up ⊎ Because k (to_error error) fail_first)
  Explains k (exhausted n e) =
      (error : Thrown) × (run_attempt with_timeout (env k) ≡ rejected error)
      × (e ≡ to_error error)
      × (n ≡ k)
      × Because k (to_error error) exhaust
  Explains k aborted_ending =
      (error : Thrown) × (run_attempt with_timeout (env k) ≡ rejected error)
      × (Because k (to_error error) cancel
          ⊎ (Because k (to_error error) (retry 0) × ((env k).aborted_in_sleep ≡ true)))
  Explains k (option_threw t) =
      (error : Thrown) × (run_attempt with_timeout (env k) ≡ rejected error)
      × (Because k (to_error error) (escape t)
          ⊎ (Because k (to_error error) (retry 0) × ((env k).on_retry_throws ≡ some t)))
  Explains k hung = run_attempt with_timeout (env k) ≡ pending

  decide_retry-Because :
      (k : ℕ) (e : ThrownObject) (c : ErrorClassification)
      → IsUncancelled k e
      → MayRetry k e
      → Because k e (decide_retry policy with_timeout classify deadline env k c)
  unfolding decide_retry
  decide_retry-Because k e c u m =
      elim (Bool-cases
        (leb policy.max_attempts k || is_sep_deadline_exceeded deadline (env k).now)) [
          | inl over ↦ elim (Bool-cases (leb k 1)) [
            | inl first ↦ rw (over, first) (u, m, ground arith, ground arith)
            | inr later ↦ rw (over, later) (u, m, ground arith, ground arith)
          ]
          | inr within ↦ rw within (u, m, ground arith, ground arith)
        ]

  decide_classified-Because :
      (k : ℕ) (e : ThrownObject) (c : Result Thrown ErrorClassification)
      → classify k e ≡ c
      → IsUncancelled k e
      → Because k e (decide_classified policy with_timeout classify deadline env k c)
  unfolding decide_classified
  decide_classified-Because k e (throws t) q u = (u, q)
  decide_classified-Because k e (ok non_retryable) q u = (u, q)
  decide_classified-Because k e (ok retryable) q u =
      decide_retry-Because k e retryable u (retryable, q, λ h. cc)
  decide_classified-Because k e (ok (retryable_with_retry_after ms)) q u =
      decide_retry-Because k e (retryable_with_retry_after ms) u
        (retryable_with_retry_after ms, q, λ h. cc)

  decide-Because :
      (k : ℕ) (e : ThrownObject)
      → Because k e (decide policy with_timeout classify deadline env k e)
  unfolding decide
  decide-Because k e = elim (Bool-cases ((env k).aborted || e.is_abort)) [
    | inl cancelled ↦ rw cancelled (ground arith)
    | inr uncancelled ↦
        rw uncancelled
          (decide_classified-Because k e (classify k e) refl (ground arith, ground arith))
  ]

  -- A run that begins with attempt `first` is accounted for.
  abbrev pub IsExplained : ℕ → Run A → Type ℓ
  IsExplained first r =
      ((k : ℕ) → first ≤ k → k < r.attempts → Retried k) × Explains r.attempts r.ending

  -- There is a run, and it is accounted for.
  abbrev pub Runs : ℕ → Option (Run A) → Type ℓ
  Runs first o = (r : Run A) × (o ≡ some r) × IsExplained first r

  stop-Runs : (k : ℕ) (e : Ending A) → Explains k e → Runs k (some (stop k e))
  stop-Runs k e x = (stop k e, refl, ((λ j h l. absurd (omega arith)), x))

  slept-IsExplained :
      (first delay : ℕ) (r : Run A)
      → Retried first
      → IsExplained (suc first) r
      → IsExplained first (slept delay r)
  slept-IsExplained first delay r now (later, x) = (
    (λ k h l. elim (ℕ_discrete k first) [
      | yes same ↦ subst Retried (sym same) now
      | no other ↦ later k (omega arith) l
    ]),
    x,
  )

  after_on_retry-Runs :
      (k delay : ℕ) (error : Thrown) (rest : Option (Run A)) (o : Option Thrown)
      → run_attempt with_timeout (env k) ≡ rejected error
      → (env k).on_retry_throws ≡ o
      → Because k (to_error error) (retry delay)
      → Runs (suc k) rest
      → Runs k (after_on_retry policy with_timeout classify deadline env k delay rest o)
  unfolding after_on_retry
  after_on_retry-Runs k delay error rest (some t) f o b h =
      stop-Runs k (option_threw t) (error, f, inr (b, o))
  after_on_retry-Runs k delay error rest none f o b (r, found, x) =
      elim (Bool-cases (env k).aborted_in_sleep) [
        | inl asleep ↦ (
          slept delay (stop k aborted_ending),
          rw asleep refl,
          ((λ j h l. absurd (omega arith)), (error, f, inr (b, asleep))),
        )
        | inr awake ↦ (
          slept delay r,
          rw (awake, found) refl,
          slept-IsExplained k delay r (error, delay, f, b, o, awake) x,
        )
      ]

  after_decision-Runs :
      (k : ℕ) (error : Thrown) (rest : Option (Run A)) (d : Decision)
      → run_attempt with_timeout (env k) ≡ rejected error
      → Because k (to_error error) d
      → (k < policy.max_attempts → Runs (suc k) rest)
      → Runs k (after_decision policy with_timeout classify deadline env k (to_error error) rest d)
  unfolding after_decision
  after_decision-Runs k error rest cancel f b h = stop-Runs k aborted_ending (error, f, inl b)
  after_decision-Runs k error rest give_up f b h =
      stop-Runs k (threw (to_error error)) (error, f, refl, inl b)
  after_decision-Runs k error rest fail_first f b h =
      stop-Runs k (threw (to_error error)) (error, f, refl, inr b)
  after_decision-Runs k error rest exhaust f b h =
      stop-Runs k (exhausted k (to_error error)) (error, f, refl, refl, b)
  after_decision-Runs k error rest (escape t) f b h = stop-Runs k (option_threw t) (error, f, inl b)
  after_decision-Runs k error rest (retry delay) f b h =
      after_on_retry-Runs k delay error rest _ f refl b (h b.2)

  after_attempt-Runs :
      (k : ℕ) (rest : Option (Run A)) (s : Settled A)
      → run_attempt with_timeout (env k) ≡ s
      → (k < policy.max_attempts → Runs (suc k) rest)
      → Runs k (after_attempt policy with_timeout classify deadline env k rest s)
  unfolding after_attempt
  after_attempt-Runs k rest (resolved v) f h = stop-Runs k (returned v) f
  after_attempt-Runs k rest pending f h = stop-Runs k hung f
  after_attempt-Runs k rest (rejected error) f h =
      after_decision-Runs k error rest _ f (decide-Because k (to_error error)) h

  retry_loop-Runs :
      (fuel first : ℕ)
      → max first policy.max_attempts < first + fuel
      → Runs first (retry_loop policy with_timeout classify deadline env fuel first)
  unfolding retry_loop
  retry_loop-Runs zero first enough = absurd (omega arith)
  retry_loop-Runs (suc fuel) first enough =
      after_attempt-Runs first _ _ refl (λ below. retry_loop-Runs fuel (suc first) (omega arith))

-- There is always a run, and it is accounted for. Every attempt before the last one failed with an
-- error that the classifier allows to retry, before the deadline, below `maxAttempts`, with no abort
-- and nothing thrown by `onRetry`; and the ending has its reason in the last attempt: its result;
-- the original error when it must not be retried, or when nothing was retried and the attempts or
-- the time are used up for an error that could be; `SepRetryExhaustedError` when they are after two
-- attempts or more; the abort when a signal or an `AbortError` asked for it, before anything else,
-- or in the sleep; what the classifier or `onRetry` threw; or an attempt that never settles.
pub with_sep_retry-IsExplained {ℓ} :
    {A : Type ℓ} (user_policy : UserPolicy) (with_timeout : Bool)
    (classify : ℕ → ThrownObject → Result Thrown ErrorClassification) (started : ℕ)
    (env : ℕ → Attempt A)
    → let policy = merge_policy user_policy in
      (r : Run A) × (with_sep_retry user_policy with_timeout classify started env ≡ some r)
      × IsExplained policy with_timeout classify (started + policy.deadline_ms) env 1 r
unfolding with_sep_retry
with_sep_retry-IsExplained user_policy with_timeout classify started env =
    let policy = merge_policy user_policy in
    retry_loop-Runs policy with_timeout classify (started + policy.deadline_ms) env
      (suc policy.max_attempts) 1 (omega arith)
