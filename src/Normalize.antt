-- ===== src/Normalize.antt =====
-- lib/rates/normalize.ts: an indicative price becomes a rate observation, or is refused with a code.
-- The ten values of `RateNormalizationCode` are among the failure codes of the suppression.
-- `Date.parse` is a parameter.
pub mod Arithmetic
pub mod Observed
pub mod Sound
pub mod Observation
mod Tests
use stellar_core.Prelude.{
  ℕ, Bool, true, false, not, ◌&&◌, ◌||◌, Option, none, some, [], ◌∷◌, leb, ◌==◌, length,
}
use stellar_core.Prelude.Int.{ℤ}
use stellar_core.Prelude.Result.{Result, ok, ◌>>=◌, ◌>>◌, throw_if, or_throw}
use stellar_core.Prelude.Text.{Text, text_eq, is_digit}
use stellar_core.Asset.{code_of}
use stellar_core.Asset.Identifier.{parse_sep38_asset_identifier}
use stellar_core.Decimal.{
  ExactDecimal, is_zero_decimal, split_point, fraction_or_empty, parse_database_decimal,
}
use stellar_core.Freshness.{Instant}
use stellar_core.Quote.{Sep38IndicativePrice, Sep38QuoteRequest}
use stellar_core.Reconcile.Types.{CorridorRegistryEntry}
use stellar_core.Suppression.{FailureCode, invalid_anchor, invalid_corridor, asset_mismatch}

abbrev pub Normalized : Type 0 → Type 0
Normalized A = Result FailureCode A

pub record NormalizeIndicativeRateInput : Type 0 where
  pub anchor_slug : Text
  pub corridor : CorridorRegistryEntry
  pub quote : Sep38IndicativePrice
  pub captured_at : Instant
  pub request : Option Sep38QuoteRequest
  pub expected_sell_asset : Option Text
  pub expected_buy_asset : Option Text

-- `NormalizedRateQuote`; the captured date is valid.
pub record NormalizedRateQuote : Type 0 where
  pub anchor_slug : Text
  pub corridor_slug : Text
  pub rate : Text
  pub source_amount : Text
  pub destination_amount : Text
  pub fee : Text
  pub captured_at : ℤ

-- The pattern of `isStableSlug`, from a place that begins a group of characters or is inside one.
slug_from : Bool → Text → Bool
slug_from begins [] = not begins
slug_from begins (c ∷ s) =
    (is_digit c || (leb b'a' c && leb c b'z') || (c == b'-' && not begins))
    && slug_from (c == b'-') s

unfoldable pub is_stable_slug : Text → Bool
unfolding slug_from
is_stable_slug value = slug_from true value

-- `parseAndRequireDecimal`.
unfoldable pub parse_and_require_decimal : Text → Bool → FailureCode → Normalized ExactDecimal
parse_and_require_decimal value positive code = do
  decimal ← or_throw (parse_database_decimal value) code
  throw_if (positive && is_zero_decimal decimal) code
  ok decimal

unfoldable pub decimal_scale : Text → ℕ
decimal_scale value = length (fraction_or_empty (split_point value).1)

-- `expected && actual !== expected`.
unfoldable pub differs_from_expected : Option Text → Text → Bool
differs_from_expected (some (c ∷ s)) actual = not (text_eq actual (c ∷ s))
differs_from_expected _ actual = false

-- `request.method && quote.method && quote.method !== request.method`.
unfoldable pub methods_conflict : Option Text → Option Text → Bool
methods_conflict (some (c ∷ s)) (some (d ∷ t)) = not (text_eq (d ∷ t) (c ∷ s))
methods_conflict _ _ = false

-- The tests on the request, where there is one.
request_conflicts : Option Sep38QuoteRequest → Sep38IndicativePrice → CorridorRegistryEntry → Bool
request_conflicts none q corridor = false
request_conflicts (some r) q corridor =
    methods_conflict r.buy_delivery_method q.buy_delivery_method
    || methods_conflict r.sell_delivery_method q.sell_delivery_method
    || differs_from_expected r.country_code corridor.country_to

-- `input.request?.asset ?? input.expectedAsset`.
expected_sell : NormalizeIndicativeRateInput → Option Text
expected_sell i = elim i.request [ none ↦ i.expected_sell_asset | some r ↦ some r.sell_asset ]

expected_buy : NormalizeIndicativeRateInput → Option Text
expected_buy i = elim i.request [ none ↦ i.expected_buy_asset | some r ↦ some r.buy_asset ]

-- The code of a parsed identifier is that of the corridor.
unfoldable pub has_code : Text → Text → Bool
has_code asset code = elim (parse_sep38_asset_identifier asset) [
  | none ↦ false
  | some p ↦ elim (code_of p) [ none ↦ false | some c ↦ text_eq c code ]
]

-- The first part of `normalizeIndicativeRate`, up to the parsed decimals.
unfoldable pub check_identity : NormalizeIndicativeRateInput → Normalized (Unit {0})
unfolding request_conflicts expected_sell expected_buy
check_identity i = do
  throw_if (not (is_stable_slug i.anchor_slug)) invalid_anchor
  throw_if (not (is_stable_slug i.corridor.slug)) invalid_corridor
  throw_if (differs_from_expected (expected_sell i) i.quote.sell_asset) asset_mismatch
  throw_if (differs_from_expected (expected_buy i) i.quote.buy_asset) asset_mismatch
  throw_if (request_conflicts i.request i.quote i.corridor) asset_mismatch
  throw_if
      (not (
        has_code i.quote.sell_asset i.corridor.asset_code_from
        && has_code i.quote.buy_asset i.corridor.asset_code_to))
      asset_mismatch
