-- ===== src/Cron/Window.antt =====
-- lib/scheduled/cronTimestamp.ts: which timestamps are accepted.
use stellar_core.Prelude.{
  ◌≡◌, refl, sym, ◌↔◌, Bool, true, false, not, Option, none, some, arith, if◌then◌else◌,
}
use stellar_core.Prelude.Int.{ℤ, pos, ◌+ℤ◌, ◌-ℤ◌, ◌≤ℤ◌, Date, get_time}
use stellar_core.Prelude.Text.{Text}
use mathlib.Core.Option.{some-injective}
use mathlib.Core.Path.{subst}
use stellar_core.Cron.Request.{
  default_cron_timestamp_skew_ms, CronTimestampDecision, within_window, timestamp_invalid, or_given,
  is_safe_skew, place_in_window, decide_times, presented_time, evaluate_cron_timestamp,
}

-- The presented time is within the skew of the clock, both ends included.
abbrev pub IsInWindow : (Text → Option ℤ) → Option Text → Date → ℤ → Type 0
IsInWindow parse_date timestamp clock skew =
    (t : ℤ) × (n : ℤ) × (presented_time parse_date timestamp ≡ some t)
    × (get_time clock ≡ some n)
    × (n -ℤ skew ≤ℤ t)
    × (t ≤ℤ n +ℤ skew)

abbrev pub skew_of : Option ℤ → ℤ
skew_of allowed_skew_ms = or_given allowed_skew_ms (pos default_cron_timestamp_skew_ms)

place_in_window_iff :
    (skew t n : ℤ)
    → (place_in_window skew t n ≡ within_window) ↔ ((n -ℤ skew ≤ℤ t) × (t ≤ℤ n +ℤ skew))
unfolding place_in_window
place_in_window_iff skew t n = (ground arith, ground arith)

times_iff :
    (skew : ℤ) (x y : Option ℤ)
    → (decide_times skew x y ≡ within_window)
      ↔ ((t : ℤ) × (n : ℤ) × (x ≡ some t) × (y ≡ some n) × (n -ℤ skew ≤ℤ t) × (t ≤ℤ n +ℤ skew))
unfolding decide_times
times_iff skew none y = ((λ e. cc), λ (t, n, e, f, g, h). cc)
times_iff skew (some t) none = ((λ e. cc), λ (u, n, e, f, g, h). cc)
times_iff skew (some t) (some n) = (
  (λ e. let p = (place_in_window_iff skew t n).0 e in (t, n, refl, refl, p.0, p.1)),
  λ (u, m, e, f, g, h).
      let same_t = sym (some-injective t u e) in
      let same_n = sym (some-injective n m f) in
      (place_in_window_iff skew t n).1 (
        subst (λ a. n -ℤ skew ≤ℤ a) same_t (subst (λ b. b -ℤ skew ≤ℤ u) same_n g),
        subst (λ a. a ≤ℤ n +ℤ skew) same_t (subst (λ b. u ≤ℤ b +ℤ skew) same_n h),
      ),
)

valid_iff :
    (b : Bool) (x : CronTimestampDecision)
    → ((if not b then timestamp_invalid else x) ≡ within_window)
      ↔ ((b ≡ true) × (x ≡ within_window))
valid_iff true x = ((λ e. (refl, e)), λ e. e.1)
valid_iff false x = ((λ e. cc), λ e. cc)

decide_times_iff :
    (parse_date : Text → Option ℤ) (timestamp : Option Text) (clock : Date) (skew : ℤ)
    → (decide_times skew (presented_time parse_date timestamp) (get_time clock) ≡ within_window)
      ↔ IsInWindow parse_date timestamp clock skew
decide_times_iff parse_date timestamp clock skew =
    times_iff skew (presented_time parse_date timestamp) (get_time clock)

is_safe_skew_iff :
    (skew : ℤ) → (is_safe_skew skew ≡ true) ↔ ((pos 0 ≤ℤ skew) × (skew ≤ℤ pos 9007199254740991))
unfolding is_safe_skew
is_safe_skew_iff skew = (ground arith, ground arith)

-- A presented timestamp is accepted exactly when the skew is an integer from 0 to 2^53 - 1, both
-- times are finite and they are no further apart than the skew.
pub evaluate_cron_timestamp_iff :
    (parse_date : Text → Option ℤ) (timestamp : Option Text) (clock : Date) (allowed : Option ℤ)
    → (evaluate_cron_timestamp parse_date timestamp clock allowed ≡ within_window) ↔ (
        ((pos 0 ≤ℤ skew_of allowed) × (skew_of allowed ≤ℤ pos 9007199254740991))
        × IsInWindow parse_date timestamp clock (skew_of allowed))
unfolding evaluate_cron_timestamp
evaluate_cron_timestamp_iff parse_date timestamp clock allowed =
    let l = decide_times_iff parse_date timestamp clock (skew_of allowed) in
    let g =
      valid_iff (is_safe_skew (skew_of allowed))
        (decide_times (skew_of allowed) (presented_time parse_date timestamp) (get_time clock)) in
    let s = is_safe_skew_iff (skew_of allowed) in
    ((λ h. (s.0 (g.0 h).0, l.0 (g.0 h).1)), λ h. g.1 (s.1 h.0, l.1 h.1))
