-- ===== src/Normalize/Arithmetic.antt =====
-- lib/rates/normalize.ts: `validateArithmeticConsistency`, and `normalizeIndicativeRate`.
use stellar_core.Prelude.{ℕ, Bool, true, false, not, Option, List, [], ◌∷◌, if◌then◌else◌}
use stellar_core.Prelude.Int.{ℤ}
use stellar_core.Prelude.Result.{ok, ◌>>=◌, ◌>>◌, throw_if, or_throw}
use stellar_core.Prelude.Text.{Text, text_eq}
use stellar_core.Decimal.{
  ExactDecimal, equal, greater, compare_decimals, is_zero_decimal, add_decimals, multiply_decimals,
  abs_decimal_diff, one_ulp, max_decimal,
}
use stellar_core.Freshness.{instant_time}
use stellar_core.Normalize.{
  Normalized, NormalizeIndicativeRateInput, NormalizedRateQuote, parse_and_require_decimal,
  decimal_scale, check_identity,
}
use stellar_core.Quote.{Sep38FeeDetail, Sep38IndicativePrice}
use stellar_core.Suppression.{
  invalid_rate, invalid_source_amount, invalid_destination_amount, invalid_fee,
  unsupported_fee_asset, invalid_timestamp, arithmetic_inconsistency,
}

-- The decimals of a quote, with the scales that its texts declare.
pub record ArithmeticInput : Type 0 where
  pub rate : ExactDecimal
  pub total_price : ExactDecimal
  pub source_amount : ExactDecimal
  pub destination_amount : ExactDecimal
  pub fee : ExactDecimal
  pub rate_scale : ℕ
  pub total_price_scale : ℕ
  pub source_amount_scale : ℕ
  pub destination_amount_scale : ℕ
  pub fee_scale : ℕ
  pub fee_details : List Sep38FeeDetail

-- The loop that adds the details.
unfoldable pub sum_details : List Sep38FeeDetail → ExactDecimal → Normalized ExactDecimal
sum_details [] sum = ok sum
sum_details (detail ∷ details) sum = do
  amount ← parse_and_require_decimal detail.amount false invalid_fee
  sum_details details (add_decimals sum amount)

unfoldable pub exceeds : ExactDecimal → ExactDecimal → Bool
exceeds l r = elim (compare_decimals l r) [ greater ↦ true | _ ↦ false ]

-- `compareDecimals(l, r) !== 0`.
unfoldable pub differs : ExactDecimal → ExactDecimal → Bool
differs l r = elim (compare_decimals l r) [ equal ↦ false | _ ↦ true ]

-- `parseDatabaseDecimal("0")`.
abbrev pub zero_decimal : ExactDecimal
zero_decimal = record { coefficient = 0; scale = 0 }

unfoldable pub check_details : List Sep38FeeDetail → ExactDecimal → Normalized (Unit {0})
check_details [] fee = ok tt
check_details (detail ∷ details) fee = do
  sum ← sum_details (detail ∷ details) zero_decimal
  throw_if (differs sum fee) arithmetic_inconsistency

unfoldable pub total_tolerance : ArithmeticInput → ExactDecimal
total_tolerance v =
    max_decimal (multiply_decimals v.total_price (one_ulp v.destination_amount_scale))
      (one_ulp v.source_amount_scale)

unfoldable pub base_tolerance : ArithmeticInput → ExactDecimal
base_tolerance v =
    max_decimal
      (multiply_decimals v.rate
        (add_decimals (one_ulp v.destination_amount_scale) (one_ulp v.fee_scale)))
      (one_ulp v.source_amount_scale)

unfoldable pub price_tolerance : ArithmeticInput → ExactDecimal
price_tolerance v = max_decimal (one_ulp v.rate_scale) (one_ulp v.total_price_scale)

unfoldable pub total_error : ArithmeticInput → ExactDecimal
total_error v =
    abs_decimal_diff v.source_amount (multiply_decimals v.total_price v.destination_amount)

unfoldable pub base_error : ArithmeticInput → ExactDecimal
base_error v =
    abs_decimal_diff v.source_amount
      (multiply_decimals v.rate (add_decimals v.destination_amount v.fee))

-- The last test: the two prices agree without a fee, and the total price is no lower with one.
unfoldable pub prices_disagree : ArithmeticInput → Bool
prices_disagree v =
    if is_zero_decimal v.fee
    then exceeds (abs_decimal_diff v.total_price v.rate) (price_tolerance v)
    else exceeds v.rate (add_decimals v.total_price (price_tolerance v))

unfoldable pub validate_arithmetic_consistency : ArithmeticInput → Normalized (Unit {0})
validate_arithmetic_consistency v = do
  check_details v.fee_details v.fee
  throw_if (exceeds (total_error v) (total_tolerance v)) arithmetic_inconsistency
  throw_if (exceeds (base_error v) (base_tolerance v)) arithmetic_inconsistency
  throw_if (prices_disagree v) arithmetic_inconsistency

-- The decimals of a quote.
unfoldable pub read_decimals : Sep38IndicativePrice → Normalized ArithmeticInput
read_decimals q = do
  rate ← parse_and_require_decimal q.price true invalid_rate
  total_price ← parse_and_require_decimal q.total_price true invalid_rate
  source ← parse_and_require_decimal q.sell_amount true invalid_source_amount
  destination ← parse_and_require_decimal q.buy_amount true invalid_destination_amount
  fee ← parse_and_require_decimal q.fee.total false invalid_fee
  ok (record {
    rate = rate;
    total_price = total_price;
    source_amount = source;
    destination_amount = destination;
    fee = fee;
    rate_scale = decimal_scale q.price;
    total_price_scale = decimal_scale q.total_price;
    source_amount_scale = decimal_scale q.sell_amount;
    destination_amount_scale = decimal_scale q.buy_amount;
    fee_scale = decimal_scale q.fee.total;
    fee_details = q.fee.details;
  })

unfoldable pub normalize_indicative_rate :
    (Text → Option ℤ) → NormalizeIndicativeRateInput → Normalized NormalizedRateQuote
normalize_indicative_rate parse_date i = do
  check_identity i
  decimals ← read_decimals i.quote
  throw_if (not (text_eq i.quote.fee.asset i.quote.buy_asset)) unsupported_fee_asset
  validate_arithmetic_consistency decimals
  captured_ms ← or_throw (instant_time parse_date i.captured_at) invalid_timestamp
  ok (record {
    anchor_slug = i.anchor_slug;
    corridor_slug = i.corridor.slug;
    rate = i.quote.price;
    source_amount = i.quote.sell_amount;
    destination_amount = i.quote.buy_amount;
    fee = i.quote.fee.total;
    captured_at = captured_ms;
  })
