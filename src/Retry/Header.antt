-- ===== src/Retry/Header.antt =====
-- lib/stellar/retry.ts: `parseRetryAfter` and `clampRetryAfterMs`. The header's dates are read by
-- `Date.parse`, the parameter `parse_date`. Numbers are exact: the rounding of a JavaScript number
-- above 2 ^ 53 is left out, its overflow to Infinity is not.
use stellar_core.Prelude.{
  ℕ, ◌-◌, ◌*◌, ◌^◌, ◌≤◌, min, ◌≡◌, refl, inl, inr, Option, none, some, [], ◌∷◌, arith, ltb,
  if◌then◌else◌, Bool-cases,
}
use stellar_core.Prelude.Int.{ℤ, pos, pos_part, ◌-ℤ◌, leb_ℤ}
use stellar_core.Prelude.Text.{Text, all_digits, trim_start, trim_end}
use stellar_core.Decimal.{digits_value}

-- The least number that JavaScript rounds to Infinity.
abbrev infinity_bound : ℕ
infinity_bound = 2 ^ 1024 - 2 ^ 970

-- `Number.isFinite(n)`, as a test: `none` is Infinity.
finite_number : ℕ → Option ℕ
finite_number n = if ltb n infinity_bound then some n else none

clamp_retry_after_ms : Option ℕ → Option ℕ → Option ℕ
clamp_retry_after_ms none ceiling = ceiling
clamp_retry_after_ms (some ms) none = some ms
clamp_retry_after_ms (some ms) (some ceiling) = some (min ms ceiling)

-- `deltaMs <= 0`, and the delta where it is positive.
positive_delta : ℤ → Option ℕ
positive_delta delta = if leb_ℤ delta (pos 0) then none else some (pos_part delta)

clamp_date : Option ℤ → Option ℕ → ℤ → Option ℕ
unfolding positive_delta clamp_retry_after_ms
clamp_date none ceiling now = none
clamp_date (some date_ms) ceiling now = elim (positive_delta (date_ms -ℤ now)) [
  | none ↦ none
  | some delta ↦ clamp_retry_after_ms (some delta) ceiling
]

module _ (parse_date : Text → Option ℤ) where
  parse_value : Text → Option ℕ → ℤ → Option ℕ
  unfolding clamp_date finite_number clamp_retry_after_ms
  parse_value [] ceiling now = none
  parse_value (c ∷ s) ceiling now =
      if all_digits (c ∷ s)
      then clamp_retry_after_ms (finite_number (digits_value 0 (c ∷ s) * 1000)) ceiling
      else clamp_date (parse_date (c ∷ s)) ceiling now

  unfoldable pub parse_retry_after : Option Text → Option ℕ → ℤ → Option ℕ
  unfolding parse_value trim_start trim_end
  parse_retry_after none ceiling now = none
  parse_retry_after (some raw) ceiling now = parse_value (trim_end (trim_start raw)) ceiling now

clamp-le-ceiling :
    (ms : Option ℕ) (ceiling d : ℕ) → clamp_retry_after_ms ms (some ceiling) ≡ some d → d ≤ ceiling
unfolding clamp_retry_after_ms
clamp-le-ceiling none ceiling d h = ground arith
clamp-le-ceiling (some ms) ceiling d h = ground arith

clamp_date-le :
    (date_ms : Option ℤ) (ceiling d : ℕ) (now : ℤ)
    → clamp_date date_ms (some ceiling) now ≡ some d
    → d ≤ ceiling
unfolding clamp_date
clamp_date-le none ceiling d now h = cc
clamp_date-le (some date_ms) ceiling d now h = ground arith

parse_value-le :
    (parse_date : Text → Option ℤ) (value : Text) (ceiling d : ℕ) (now : ℤ)
    → parse_value parse_date value (some ceiling) now ≡ some d
    → d ≤ ceiling
unfolding parse_value
parse_value-le parse_date [] ceiling d now h = cc
parse_value-le parse_date (c ∷ s) ceiling d now h = elim (Bool-cases (all_digits (c ∷ s))) [
  | inl digits ↦ clamp-le-ceiling _ ceiling d (rw digits at h)
  | inr other ↦ clamp_date-le (parse_date (c ∷ s)) ceiling d now (rw other at h)
]

-- Under a ceiling no header, however extreme, gives a delay above it, and a missing one gives none.
pub parse_retry_after-le-ceiling :
    (parse_date : Text → Option ℤ) (raw : Option Text) (ceiling : ℕ) (now : ℤ)
    → ((d : ℕ) → parse_retry_after parse_date raw (some ceiling) now ≡ some d → d ≤ ceiling)
      × (raw ≡ none → parse_retry_after parse_date raw (some ceiling) now ≡ none)
unfolding parse_retry_after
parse_retry_after-le-ceiling parse_date none ceiling now = ((λ d h. cc), λ h. refl)
parse_retry_after-le-ceiling parse_date (some raw) ceiling now =
    ((λ d h. parse_value-le parse_date (trim_end (trim_start raw)) ceiling d now h), λ h. cc)
