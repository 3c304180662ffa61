-- ===== src/Normalize/Observation.antt =====
-- lib/rates/normalize.ts: the normalization as a whole.
use stellar_core.Prelude.{
  ◌≡◌, refl, inl, inr, true, false, not, ◌&&◌, Option, some, List, [], ◌∷◌, arith,
}
use stellar_core.Prelude.Int.{ℤ}
use stellar_core.Prelude.Result.{
  ok, throw_if, or_throw, Ends, Ends->>=, Ends-test, Ends-own, Ends-or_throw,
}
use stellar_core.Prelude.Text.{Text, text_eq, text_eq_iff}
use stellar_core.Decimal.{ExactDecimal, add_decimals}
use stellar_core.Freshness.{instant_time}
use stellar_core.Normalize.{
  NormalizeIndicativeRateInput, is_stable_slug, differs_from_expected, has_code, check_identity,
  request_conflicts, expected_sell, expected_buy,
}
use stellar_core.Normalize.Arithmetic.{
  ArithmeticInput, sum_details, exceeds, differs, zero_decimal, check_details, total_tolerance,
  base_tolerance, total_error, base_error, prices_disagree, validate_arithmetic_consistency,
  read_decimals, normalize_indicative_rate, price_tolerance,
}
use stellar_core.Normalize.Observed.{
  IsConsistent, IsPermanentCode, HasCode, IsReadFrom, DetailsAdd, IsObservationOf,
}
use stellar_core.Normalize.Sound.{
  exceeds-IsAtMost, differs-SameValue, has_code-HasCode, permanent_asset, permanent_rate,
  permanent_source, permanent_destination, permanent_fee, permanent_fee_asset, permanent_timestamp,
  permanent_anchor, permanent_corridor, permanent_arithmetic, read_then, test_then,
  decimal_scale-HasPlaces, one_ulp-SameValue, max_decimal-IsWithin,
}
use stellar_core.Quote.{Sep38FeeDetail, Sep38IndicativePrice}
use stellar_core.Suppression.{
  invalid_anchor, invalid_corridor, asset_mismatch, invalid_rate, invalid_source_amount,
  invalid_destination_amount, invalid_fee, unsupported_fee_asset, invalid_timestamp,
  arithmetic_inconsistency,
}

sum_details-Ends :
    (details : List Sep38FeeDetail) (sum : ExactDecimal)
    → Ends (λ _. Unit) IsPermanentCode (sum_details details sum)
unfolding sum_details
sum_details-Ends [] sum = tt
sum_details-Ends (detail ∷ details) sum =
    read_then detail.amount false invalid_fee (λ _. Unit) _ permanent_fee
      (λ amount _. sum_details-Ends details (add_decimals sum amount))

abbrev HasCodes : NormalizeIndicativeRateInput → Type 0
HasCodes i =
    HasCode i.quote.sell_asset i.corridor.asset_code_from
    × HasCode i.quote.buy_asset i.corridor.asset_code_to

codes_test :
    (i : NormalizeIndicativeRateInput)
    → Ends
        (λ _. HasCodes i)
        IsPermanentCode
        (throw_if
          (not (
            has_code i.quote.sell_asset i.corridor.asset_code_from
            && has_code i.quote.buy_asset i.corridor.asset_code_to))
          asset_mismatch)
codes_test i =
    Ends-test (λ _. HasCodes i) IsPermanentCode _ asset_mismatch permanent_asset
      (λ e. (has_code-HasCode _ _ (ground (arith, e)), has_code-HasCode _ _ (ground (arith, e))))

check_identity-Ends :
    (i : NormalizeIndicativeRateInput) → Ends (λ _. HasCodes i) IsPermanentCode (check_identity i)
unfolding check_identity
check_identity-Ends i =
    let Q : Unit {0} → Type 0 = λ _. HasCodes i in
    test_then Q (not (is_stable_slug i.anchor_slug)) invalid_anchor _ permanent_anchor (λ _.
      test_then Q (not (is_stable_slug i.corridor.slug)) invalid_corridor _ permanent_corridor (λ _.
        test_then Q (differs_from_expected (expected_sell i) i.quote.sell_asset) asset_mismatch _
          permanent_asset
          (λ _.
            test_then Q (differs_from_expected (expected_buy i) i.quote.buy_asset) asset_mismatch _
              permanent_asset
              (λ _.
                test_then Q (request_conflicts i.request i.quote i.corridor) asset_mismatch _
                  permanent_asset (λ _. codes_test i)))))

read_decimals-Ends :
    (q : Sep38IndicativePrice) → Ends (IsReadFrom q) IsPermanentCode (read_decimals q)
unfolding read_decimals
read_decimals-Ends q =
    read_then q.price true invalid_rate (IsReadFrom q) _ permanent_rate (λ _ rate.
      read_then q.total_price true invalid_rate (IsReadFrom q) _ permanent_rate (λ _ total.
        read_then q.sell_amount true invalid_source_amount (IsReadFrom q) _ permanent_source
          (λ _ source.
            read_then q.buy_amount true invalid_destination_amount (IsReadFrom q) _
              permanent_destination
              (λ _ destination.
                read_then q.fee.total false invalid_fee (IsReadFrom q) _ permanent_fee (λ _ fee.
                  record {
                    rate_read = rate;
                    total_price_read = total;
                    source_read = source;
                    destination_read = destination;
                    fee_read = fee;
                    rate_places = decimal_scale-HasPlaces q.price;
                    total_price_places = decimal_scale-HasPlaces q.total_price;
                    source_places = decimal_scale-HasPlaces q.sell_amount;
                    destination_places = decimal_scale-HasPlaces q.buy_amount;
                    fee_places = decimal_scale-HasPlaces q.fee.total;
                    details_kept = refl;
                  })))))

check_details-Ends :
    (details : List Sep38FeeDetail) (fee : ExactDecimal)
    → Ends (λ _. DetailsAdd details fee) IsPermanentCode (check_details details fee)
unfolding check_details
check_details-Ends [] fee = inl refl
check_details-Ends (detail ∷ details) fee =
    let all = detail ∷ details in
    Ends->>= (λ s. sum_details all zero_decimal ≡ ok s) (λ _. DetailsAdd all fee) IsPermanentCode
      (sum_details all zero_decimal) _
      (Ends-own (λ _. Unit) IsPermanentCode _ (sum_details-Ends all zero_decimal))
      (λ s e.
        Ends-test (λ _. DetailsAdd all fee) IsPermanentCode (differs s fee) arithmetic_inconsistency
          permanent_arithmetic (λ d. inr (s, e, differs-SameValue s fee d)))

validate_arithmetic_consistency-Ends :
    (v : ArithmeticInput)
    → Ends (λ _. IsConsistent v) IsPermanentCode (validate_arithmetic_consistency v)
unfolding validate_arithmetic_consistency prices_disagree total_error total_tolerance base_error
    base_tolerance price_tolerance
validate_arithmetic_consistency-Ends v =
    Ends->>= (λ _. DetailsAdd v.fee_details v.fee) (λ _. IsConsistent v) IsPermanentCode
      (check_details v.fee_details v.fee) _ (check_details-Ends v.fee_details v.fee)
      (λ _ details.
        test_then (λ _. IsConsistent v) (exceeds (total_error v) (total_tolerance v))
          arithmetic_inconsistency _ permanent_arithmetic
          (λ total.
            test_then (λ _. IsConsistent v) (exceeds (base_error v) (base_tolerance v))
              arithmetic_inconsistency _ permanent_arithmetic
              (λ base.
                Ends-test (λ _. IsConsistent v) IsPermanentCode (prices_disagree v)
                  arithmetic_inconsistency permanent_arithmetic
                  (λ e. record {
                    unit_value = one_ulp-SameValue;
                    details_add = details;
                    total_within = max_decimal-IsWithin (λ d. d) _ _ _ (exceeds-IsAtMost _ _ total);
                    base_within = max_decimal-IsWithin (λ d. d) _ _ _ (exceeds-IsAtMost _ _ base);
                    prices_agree = λ z.
                        max_decimal-IsWithin (λ d. d) _ _ _
                          (exceeds-IsAtMost _ _ (ground (arith, e, z)));
                    price_below_total = λ z.
                        max_decimal-IsWithin (add_decimals v.total_price) _ _ _
                          (exceeds-IsAtMost _ _ (ground (arith, e, z)));
                  }))))

-- An indicative price becomes a rate only where its codes are those of the corridor, its fee is in
-- the bought asset, its texts are decimals that agree within one unit of the last places that the
-- texts have, carried through the product, and the capture has a time; the rate then carries the slugs of the input and the texts of the price. Every refusal has a code
-- that the source's suppression counts as permanent.
pub normalize_indicative_rate-Ends :
    (parse_date : Text → Option ℤ) (i : NormalizeIndicativeRateInput)
    → Ends (IsObservationOf parse_date i) IsPermanentCode (normalize_indicative_rate parse_date i)
unfolding normalize_indicative_rate
normalize_indicative_rate-Ends parse_date i =
    let Q = IsObservationOf parse_date i in
    Ends->>= (λ _. HasCodes i) Q IsPermanentCode (check_identity i) _ (check_identity-Ends i)
      (λ _ codes.
        Ends->>= (IsReadFrom i.quote) Q IsPermanentCode (read_decimals i.quote) _
          (read_decimals-Ends i.quote)
          (λ v read.
            test_then Q (not (text_eq i.quote.fee.asset i.quote.buy_asset)) unsupported_fee_asset _
              permanent_fee_asset
              (λ fee.
                Ends->>= (λ _. IsConsistent v) Q IsPermanentCode (validate_arithmetic_consistency v)
                  _ (validate_arithmetic_consistency-Ends v)
                  (λ _ consistent.
                    Ends->>= (λ t. instant_time parse_date i.captured_at ≡ some t) Q IsPermanentCode
                      (or_throw (instant_time parse_date i.captured_at) invalid_timestamp) _
                      (Ends-or_throw IsPermanentCode _ invalid_timestamp permanent_timestamp)
                      (λ t time. record {
                        sell_code = codes.0;
                        buy_code = codes.1;
                        fee_in_buy_asset =
                            (text_eq_iff i.quote.fee.asset i.quote.buy_asset).0
                              (ground (arith, fee));
                        amounts = (v, read, consistent);
                        same_anchor = refl;
                        same_corridor = refl;
                        same_rate = refl;
                        same_source = refl;
                        same_destination = refl;
                        same_fee = refl;
                        captured = time;
                      })))))
