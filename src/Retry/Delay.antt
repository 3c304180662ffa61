-- ===== src/Retry/Delay.antt =====
-- lib/stellar/retry.ts: `calculateSepRetryDelay` and `isSepDeadlineExceeded`.
use stellar_core.Prelude.{
  ℕ, ◌+◌, ◌-◌, ◌*◌, ◌/◌, ◌^◌, ◌≤◌, ◌<◌, min, Bool, Option, none, some, arith, leb,
}
use stellar_core.Prelude.Int.{ℤ, pos_part}
use native.Mathlib.Nat.{mul-le-mul_right, le-div_iff_mul-le}
use stellar_core.Retry.{SepRetryPolicy}

-- What `random()` returns, a fraction in [0, 1]. The product with it is taken exactly.
pub record Random : Type 0 where
  pub numerator : ℕ
  pub denominator : ℕ

pub record IsUnit (r : Random) : Type 0 where
  pub denominator_pos : 0 < r.denominator
  pub at_most_one : r.numerator ≤ r.denominator

abbrev pub capped_delay : SepRetryPolicy → ℕ → ℕ
capped_delay p attempt = min (p.base_delay_ms * 2 ^ (attempt - 1)) p.max_delay_ms

-- `Math.floor(cappedDelay * (0.5 + 0.5 * random()))`.
jittered : ℕ → Random → ℕ
jittered capped r = capped * (r.denominator + r.numerator) / (2 * r.denominator)

unfoldable pub calculate_sep_retry_delay : SepRetryPolicy → ℕ → Option ℤ → Random → ℕ
unfolding jittered
calculate_sep_retry_delay p attempt none r = jittered (capped_delay p attempt) r
calculate_sep_retry_delay p attempt (some retry_after) r =
    min (pos_part retry_after) p.max_retry_after_ms

abbrev pub is_sep_deadline_exceeded : ℕ → ℕ → Bool
is_sep_deadline_exceeded deadline now = leb deadline now

half_below : (c p q : ℕ) → 0 < q → c / 2 ≤ c * (q + p) / (2 * q)
half_below c p q h =
    (le-div_iff_mul-le (omega arith)).1
      (omega (arith, mul-le-mul_right {m = 2 * (c / 2)} {n = c} q (omega arith)))

jittered_bounds :
    (capped : ℕ) (r : Random)
    → IsUnit r
    → (capped / 2 ≤ jittered capped r) × (jittered capped r ≤ capped)
unfolding jittered
jittered_bounds capped r u =
    (half_below capped r.numerator r.denominator u.denominator_pos, grind arith)

-- A wait lies between half of the capped exponential delay and all of it, hence below
-- `maxDelayMs`, or, where the server asked for one, below `maxRetryAfterMs`.
pub calculate_sep_retry_delay_bounds :
    (p : SepRetryPolicy) (attempt : ℕ) (retry_after : ℤ) (r : Random)
    → IsUnit r
    → (capped_delay p attempt / 2 ≤ calculate_sep_retry_delay p attempt none r)
      × (calculate_sep_retry_delay p attempt none r ≤ capped_delay p attempt)
      × (calculate_sep_retry_delay p attempt none r ≤ p.max_delay_ms)
      × (calculate_sep_retry_delay p attempt (some retry_after) r ≤ p.max_retry_after_ms)
unfolding calculate_sep_retry_delay
calculate_sep_retry_delay_bounds p attempt retry_after r u =
    let (low, high) = jittered_bounds (capped_delay p attempt) r u in
    (low, high, omega arith, omega arith)
