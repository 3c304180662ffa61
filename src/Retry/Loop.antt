-- ===== src/Retry/Loop.antt =====
-- lib/stellar/retry.ts: `withSepRetry` and `runAttempt`. What happens around the loop is an
-- environment, one record for each attempt: how the callback ends, whether the timer of the attempt
-- fires first, whether the signal is aborted when the failure is caught and at the end of the sleep,
-- what `onRetry` throws and what the clock and the random source return. The classifier is a
-- parameter, which may answer otherwise at each attempt and may throw.
use mathlib.Core.Option
use stellar_core.Prelude.{
  ℕ, zero, suc, ◌+◌, min, Bool, true, false, ◌||◌, Option, none, some, List, [], ◌∷◌, leb,
  if◌then◌else◌,
}
use stellar_core.Prelude.Int.{ℤ, pos, pos_part}
use stellar_core.Prelude.Result.{Result, ok, throws}
use stellar_core.Errors.{ThrownObject, Thrown, primitive, object}
use stellar_core.Retry.{
  SepRetryPolicy, ErrorClassification, non_retryable, retryable_with_retry_after,
  default_sep_retry_policy,
}
use stellar_core.Retry.Delay.{Random, calculate_sep_retry_delay, is_sep_deadline_exceeded}

-- How a promise settles, if it does.
pub data Settled {ℓ} (A : Type ℓ) : Type ℓ where
  resolved : A → Settled A
  rejected : Thrown → Settled A
  pending : Settled A

pub record Attempt {ℓ} (A : Type ℓ) : Type ℓ where
  pub callback : Settled A
  pub timer_first : Bool
  pub aborted : Bool
  pub now : ℕ
  pub on_retry_throws : Option Thrown
  pub random : Random
  pub aborted_in_sleep : Bool

-- How `withSepRetry` ends: a result, the original error, a `SepRetryExhaustedError`, the
-- `AbortError` of `abortReason`, or what the classifier or `onRetry` threw; or it hangs in an
-- attempt that never settles.
pub data Ending {ℓ} (A : Type ℓ) : Type ℓ where
  returned : A → Ending A
  threw : ThrownObject → Ending A
  exhausted : ℕ → ThrownObject → Ending A
  aborted_ending : Ending A
  option_threw : Thrown → Ending A
  hung : Ending A

-- The ending, the number of attempts made and the sleeps between them, first to last.
pub record Run {ℓ} (A : Type ℓ) : Type ℓ where
  pub ending : Ending A
  pub attempts : ℕ
  pub delays : List ℕ

-- `new Error(…)`, with no code.
abbrev pub plain_error : ThrownObject
plain_error = record {
  is_error = true;
  is_abort = false;
  code = none;
  status = none;
  retry_after = none;
}

-- `error instanceof Error ? error : new Error(String(error))`.
unfoldable pub to_error : Thrown → ThrownObject
to_error primitive = plain_error
to_error (object e) = if e.is_error then e else plain_error

-- `context.retryAfterMs`: set for the third classification only, and clamped.
unfoldable pub context_retry_after : SepRetryPolicy → ErrorClassification → Option ℤ
context_retry_after p (retryable_with_retry_after none) = some (pos (min 0 p.max_retry_after_ms))
context_retry_after p (retryable_with_retry_after (some ms)) =
    some (pos (min (pos_part ms) p.max_retry_after_ms))
context_retry_after p _ = none

module _ {ℓ} {A : Type ℓ} where
  -- `Promise.race` with the timer, which fires at last where the callback never settles.
  unfoldable pub raced : Bool → Settled A → Settled A
  raced timer_first pending = rejected (object plain_error)
  raced timer_first s = if timer_first then rejected (object plain_error) else s

  unfoldable pub run_attempt : Bool → Attempt A → Settled A
  unfolding raced
  run_attempt true a = raced a.timer_first a.callback
  run_attempt false a = a.callback

  abbrev pub stop : ℕ → Ending A → Run A
  stop attempt e = record { ending = e; attempts = attempt; delays = [] }

  -- A retry: one sleep more in front of what follows.
  abbrev pub slept : ℕ → Run A → Run A
  slept delay r = record r { delays = delay ∷ r.delays }

-- What the `catch` block decides about a failed attempt.
pub data Decision : Type 0 where
  cancel give_up fail_first : Decision
  escape : Thrown → Decision
  exhaust : Decision
  retry : ℕ → Decision

module _ {ℓ} {A : Type ℓ} (policy : SepRetryPolicy) (with_timeout : Bool)
    (classify : ℕ → ThrownObject → Result Thrown ErrorClassification) (deadline : ℕ)
    (env : ℕ → Attempt A) where
  -- A failure that the classifier allows to retry.
  unfoldable pub decide_retry : ℕ → ErrorClassification → Decision
  decide_retry attempt c =
      let a = env attempt in
      if leb policy.max_attempts attempt || is_sep_deadline_exceeded deadline a.now
      then (if leb attempt 1 then fail_first else exhaust)
      else retry (calculate_sep_retry_delay policy attempt (context_retry_after policy c) a.random)

  unfoldable pub decide_classified : ℕ → Result Thrown ErrorClassification → Decision
  unfolding decide_retry
  decide_classified attempt (throws e) = escape e
  decide_classified attempt (ok non_retryable) = give_up
  decide_classified attempt (ok c) = decide_retry attempt c

  unfoldable pub decide : ℕ → ThrownObject → Decision
  unfolding decide_classified
  decide attempt last_error =
      if (env attempt).aborted || last_error.is_abort
      then cancel
      else decide_classified attempt (classify attempt last_error)

  -- A retry, after `onRetry`: the sleep, and the rest of the loop.
  unfoldable pub after_on_retry : ℕ → ℕ → Option (Run A) → Option Thrown → Option (Run A)
  after_on_retry attempt delay rest (some e) = some (stop attempt (option_threw e))
  after_on_retry attempt delay rest none =
      if (env attempt).aborted_in_sleep
      then some (slept delay (stop attempt aborted_ending))
      else Option.map (slept delay) rest

  -- What follows the decision, where `rest` is the loop from the next attempt on.
  unfoldable pub after_decision : ℕ → ThrownObject → Option (Run A) → Decision → Option (Run A)
  unfolding after_on_retry
  after_decision attempt last_error rest cancel = some (stop attempt aborted_ending)
  after_decision attempt last_error rest give_up = some (stop attempt (threw last_error))
  after_decision attempt last_error rest fail_first = some (stop attempt (threw last_error))
  after_decision attempt last_error rest (escape e) = some (stop attempt (option_threw e))
  after_decision attempt last_error rest exhaust =
      some (stop attempt (exhausted attempt last_error))
  after_decision attempt last_error rest (retry delay) =
      after_on_retry attempt delay rest (env attempt).on_retry_throws

  unfoldable pub after_attempt : ℕ → Option (Run A) → Settled A → Option (Run A)
  unfolding after_decision
  after_attempt attempt rest (resolved v) = some (stop attempt (returned v))
  after_attempt attempt rest pending = some (stop attempt hung)
  after_attempt attempt rest (rejected error) =
      after_decision attempt (to_error error) rest (decide attempt (to_error error))

  -- The loop from one attempt on; `none` means that the fuel ran out.
  unfoldable pub retry_loop : ℕ → ℕ → Option (Run A)
  retry_loop zero attempt = none
  retry_loop (suc fuel) attempt =
      let rest = retry_loop fuel (suc attempt) in
      after_attempt attempt rest (run_attempt with_timeout (env attempt))

-- `Partial<SepRetryPolicy>`, where an option that is left out is `none`.
pub record UserPolicy : Type 0 where
  pub user_max_attempts : Option ℕ
  pub user_base_delay_ms : Option ℕ
  pub user_max_delay_ms : Option ℕ
  pub user_deadline_ms : Option ℕ
  pub user_max_retry_after_ms : Option ℕ

unfoldable pub overridden : ℕ → Option ℕ → ℕ
overridden value none = value
overridden value (some user) = user

-- `{ ...DEFAULT_SEP_RETRY_POLICY, ...userPolicy }`.
unfoldable pub merge_policy : UserPolicy → SepRetryPolicy
unfolding overridden
merge_policy u =
    let p = default_sep_retry_policy in
    record {
      max_attempts = overridden p.max_attempts u.user_max_attempts;
      base_delay_ms = overridden p.base_delay_ms u.user_base_delay_ms;
      max_delay_ms = overridden p.max_delay_ms u.user_max_delay_ms;
      deadline_ms = overridden p.deadline_ms u.user_deadline_ms;
      max_retry_after_ms = overridden p.max_retry_after_ms u.user_max_retry_after_ms;
    }

-- `attempt` never passes `maxAttempts`, so one round more than that is fuel enough.
module _ {ℓ} {A : Type ℓ} where
  unfoldable pub with_sep_retry :
      UserPolicy
      → Bool
      → (ℕ → ThrownObject → Result Thrown ErrorClassification)
      → ℕ
      → (ℕ → Attempt A)
      → Option (Run A)
  with_sep_retry user_policy with_timeout classify started env =
      let policy = merge_policy user_policy in
      retry_loop policy with_timeout classify (started + policy.deadline_ms) env
        (suc policy.max_attempts) 1
