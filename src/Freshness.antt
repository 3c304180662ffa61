-- ===== src/Freshness.antt =====
-- lib/rates/freshness.ts (getRateFreshness) and constants/rates.ts: the age of a captured rate.
use stellar_core.Prelude.{ℕ, ◌≡◌, ◌↔◌, Option, none, some, if◌then◌else◌, refl, arith}
use stellar_core.Prelude.Int.{ℤ, pos, ◌-ℤ◌, ◌≤ℤ◌, ltb_ℤ, leb_ℤ, Date, get_time, -ℤ_parts}
use stellar_core.Prelude.Text.{Text}

abbrev pub rate_freshness_threshold_ms : ℕ
rate_freshness_threshold_ms = 120000

-- A `Date | string`; a string is read by `Date.parse`, the parameter `parse_date` below.
pub data Instant : Type 0 where
  of_date : Date → Instant
  of_text : Text → Instant

pub data RateFreshnessState : Type 0 where
  fresh stale future invalid : RateFreshnessState

pub record RateFreshness : Type 0 where
  pub state : RateFreshnessState
  pub age_ms : Option ℤ

-- The time of an instant, where `none` stands for NaN.
abbrev pub instant_time : (Text → Option ℤ) → Instant → Option ℤ
instant_time parse_date (of_date d) = get_time d
instant_time parse_date (of_text t) = parse_date t

freshness_of : Option ℤ → Option ℤ → RateFreshness
freshness_of (some captured_ms) (some now_ms) =
    let age = now_ms -ℤ captured_ms in
    if ltb_ℤ age (pos 0) then record { state = future; age_ms = some age } else record {
      state = if leb_ℤ age (pos rate_freshness_threshold_ms) then fresh else stale;
      age_ms = some age;
    }
freshness_of _ _ = record { state = invalid; age_ms = none }

unfoldable pub get_rate_freshness : (Text → Option ℤ) → Instant → Date → RateFreshness
unfolding freshness_of
get_rate_freshness parse_date captured_at now =
    freshness_of (instant_time parse_date captured_at) (get_time now)

freshness_of-fresh_iff :
    (a b : Option ℤ)
    → ((freshness_of a b).state ≡ fresh) ↔ (
        (c : ℤ) × (n : ℤ) × (a ≡ some c)
        × (b ≡ some n)
        × (c ≤ℤ n)
        × (n -ℤ c ≤ℤ pos rate_freshness_threshold_ms))
unfolding freshness_of
freshness_of-fresh_iff none b = ((λ e. cc), λ (c, n, e, f, g, h). cc)
freshness_of-fresh_iff (some c) none = ((λ e. cc), λ (c, n, e, f, g, h). cc)
freshness_of-fresh_iff (some c) (some n) = (
  (λ e. (c, n, refl, refl, ground (arith, -ℤ_parts n c), ground (arith, -ℤ_parts n c))),
  λ (x, y, e, f, g, h). ground (arith, -ℤ_parts n c, -ℤ_parts y x),
)

-- A rate is FRESH exactly when both times are finite, the capture is not later than the clock, and
-- at most 120,000 ms lie between them.
pub get_rate_freshness-fresh_iff :
    (parse_date : Text → Option ℤ) (captured_at : Instant) (now : Date)
    → ((get_rate_freshness parse_date captured_at now).state ≡ fresh) ↔ (
        (c : ℤ) × (n : ℤ) × (instant_time parse_date captured_at ≡ some c)
        × (get_time now ≡ some n)
        × (c ≤ℤ n)
        × (n -ℤ c ≤ℤ pos rate_freshness_threshold_ms))
unfolding get_rate_freshness
get_rate_freshness-fresh_iff parse_date captured_at now =
    freshness_of-fresh_iff (instant_time parse_date captured_at) (get_time now)
