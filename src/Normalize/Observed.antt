-- ===== src/Normalize/Observed.antt =====
-- lib/rates/normalize.ts: what an accepted quote satisfies.
use stellar_core.Prelude.{
  ◌*◌, ◌≤◌, ◌≡◌, ◌⊎◌, Bool, true, false, ◌&&◌, Option, some, List, [], ℕ, ◌≢◌, ◌∷◌, ◌++◌, length,
}
use stellar_core.Prelude.Int.{ℤ}
use stellar_core.Prelude.Predicates.{All}
use stellar_core.Prelude.Result.{ok}
use stellar_core.Prelude.Text.{Text}
use stellar_core.Asset.{ParsedSep38AssetIdentifier, code_of}
use stellar_core.Asset.Identifier.{parse_sep38_asset_identifier}
use stellar_core.Decimal.{
  ExactDecimal, power_of_ten, is_zero_decimal, add_decimals, abs_decimal_diff,
  parse_database_decimal, multiply_decimals, one_ulp,
}
use stellar_core.Decimal.Value.{SameValue}
use stellar_core.Freshness.{instant_time}
use stellar_core.Normalize.{NormalizeIndicativeRateInput, NormalizedRateQuote}
use stellar_core.Normalize.Arithmetic.{ArithmeticInput, sum_details, zero_decimal}
use stellar_core.Quote.{Sep38FeeDetail, Sep38IndicativePrice}
use stellar_core.Suppression.{
  ScheduledSuppressionReason, normalization, FailureCode, classify_permanent_scheduled_failure,
}

-- l is at most r, by cross multiplication.
abbrev pub IsAtMost : ExactDecimal → ExactDecimal → Type 0
IsAtMost l r = l.coefficient * power_of_ten r.scale ≤ r.coefficient * power_of_ten l.scale

-- The decimal that a text stands for.
abbrev pub Denotes : Text → Bool → ExactDecimal → Type 0
Denotes value positive d =
    (parse_database_decimal value ≡ some d) × ((positive && is_zero_decimal d) ≡ false)

-- A code that the suppression counts: a failure that does not go away by itself.
abbrev pub IsPermanentCode : FailureCode → Type 0
IsPermanentCode code =
    (reason : ScheduledSuppressionReason) × (classify_permanent_scheduled_failure normalization code
      ≡ some reason)

abbrev pub HasCode : Text → Text → Type 0
HasCode asset code =
    (p : ParsedSep38AssetIdentifier) × (parse_sep38_asset_identifier asset ≡ some p)
    × (code_of p ≡ some code)

-- The text has n places after its point.
abbrev pub HasPlaces : Text → ℕ → Type 0
HasPlaces text n =
    (All (λ c. c ≢ b'.') text × (n ≡ 0))
    ⊎ ((before : Text) × (after : Text) × (text ≡ before ++ (b'.' ∷ after))
        × All (λ c. c ≢ b'.') before
        × (length after ≡ n))

pub record IsReadFrom (q : Sep38IndicativePrice) (v : ArithmeticInput) : Type 0 where
  pub rate_read : Denotes q.price true v.rate
  pub total_price_read : Denotes q.total_price true v.total_price
  pub source_read : Denotes q.sell_amount true v.source_amount
  pub destination_read : Denotes q.buy_amount true v.destination_amount
  pub fee_read : Denotes q.fee.total false v.fee
  pub rate_places : HasPlaces q.price v.rate_scale
  pub total_price_places : HasPlaces q.total_price v.total_price_scale
  pub source_places : HasPlaces q.sell_amount v.source_amount_scale
  pub destination_places : HasPlaces q.buy_amount v.destination_amount_scale
  pub fee_places : HasPlaces q.fee.total v.fee_scale
  pub details_kept : v.fee_details ≡ q.fee.details

abbrev pub DetailsAdd : List Sep38FeeDetail → ExactDecimal → Type 0
DetailsAdd details fee =
    (details ≡ [])
    ⊎ ((s : ExactDecimal) × (sum_details details zero_decimal ≡ ok s) × SameValue s fee)

-- The difference is within one of two tolerances.
abbrev pub IsWithin : ExactDecimal → ExactDecimal → ExactDecimal → Type 0
IsWithin e l r = IsAtMost e l ⊎ IsAtMost e r

-- The amounts agree within one unit in their last places, which is carried through the product.
pub record IsConsistent (v : ArithmeticInput) : Type 0 where
  pub unit_value : (n : ℕ) → SameValue (one_ulp n) (record { coefficient = 1; scale = n })
  pub details_add : DetailsAdd v.fee_details v.fee
  pub total_within :
      IsWithin
        (abs_decimal_diff v.source_amount (multiply_decimals v.total_price v.destination_amount))
        (multiply_decimals v.total_price (one_ulp v.destination_amount_scale))
        (one_ulp v.source_amount_scale)
  pub base_within :
      IsWithin
        (abs_decimal_diff v.source_amount
          (multiply_decimals v.rate (add_decimals v.destination_amount v.fee)))
        (multiply_decimals v.rate
          (add_decimals (one_ulp v.destination_amount_scale) (one_ulp v.fee_scale)))
        (one_ulp v.source_amount_scale)
  pub prices_agree :
      is_zero_decimal v.fee ≡ true
      → IsWithin
          (abs_decimal_diff v.total_price v.rate)
          (one_ulp v.rate_scale)
          (one_ulp v.total_price_scale)
  pub price_below_total :
      is_zero_decimal v.fee ≡ false
      → IsWithin v.rate
          (add_decimals v.total_price (one_ulp v.rate_scale))
          (add_decimals v.total_price (one_ulp v.total_price_scale))

pub record IsObservationOf (parse_date : Text → Option ℤ) (i : NormalizeIndicativeRateInput)
    (n : NormalizedRateQuote) : Type 0 where
  pub sell_code : HasCode i.quote.sell_asset i.corridor.asset_code_from
  pub buy_code : HasCode i.quote.buy_asset i.corridor.asset_code_to
  pub fee_in_buy_asset : i.quote.fee.asset ≡ i.quote.buy_asset
  pub amounts : (v : ArithmeticInput) × IsReadFrom i.quote v × IsConsistent v
  pub same_anchor : n.anchor_slug ≡ i.anchor_slug
  pub same_corridor : n.corridor_slug ≡ i.corridor.slug
  pub same_rate : n.rate ≡ i.quote.price
  pub same_source : n.source_amount ≡ i.quote.sell_amount
  pub same_destination : n.destination_amount ≡ i.quote.buy_amount
  pub same_fee : n.fee ≡ i.quote.fee.total
  pub captured : instant_time parse_date i.captured_at ≡ some n.captured_at
