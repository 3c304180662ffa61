-- ===== src/Normalize/Tests.antt =====
-- A price of a corridor from XLM to BRL.
use stellar_core.Prelude.{Option, none, some, [], ◌≡◌, refl}
use stellar_core.Prelude.Int.{ℤ, pos, at}
use stellar_core.Prelude.Result.{ok, throws, Ends}
use stellar_core.Prelude.Text.{Text, codes, strip_prefix, text_eq, is_digit, all_digits}
use stellar_core.Asset.{code_of, all_units, is_upper, matches_iso4217}
use stellar_core.Asset.Identifier.{
  is_lumen, parse_iso4217, parse_stellar, parse_sep38_asset_identifier,
}
use stellar_core.Decimal.{
  parse_database_decimal, power_of_ten, normalize_decimal, scaled, compare_decimals,
  is_zero_decimal, add_decimals, multiply_decimals, abs_decimal_diff, one_ulp, max_decimal,
  split_point, matches_decimal, digits_value,
}
use stellar_core.Freshness.{of_date}
use stellar_core.Normalize.{
  Normalized, NormalizeIndicativeRateInput, NormalizedRateQuote, is_stable_slug,
  parse_and_require_decimal, differs_from_expected, has_code, check_identity, request_conflicts,
  decimal_scale,
}
use stellar_core.Normalize.Arithmetic.{
  exceeds, check_details, total_tolerance, base_tolerance, price_tolerance, total_error, base_error,
  prices_disagree, validate_arithmetic_consistency, read_decimals, normalize_indicative_rate,
}
use stellar_core.Normalize.Observation.{normalize_indicative_rate-Ends}
use stellar_core.Normalize.Observed.{IsPermanentCode, IsObservationOf}
use stellar_core.Quote.{Sep38IndicativePrice}
use stellar_core.Suppression.{FailureCode, arithmetic_inconsistency}

abbrev no_dates : Text → Option ℤ
no_dates t = none

abbrev xlm_quote : Text → Sep38IndicativePrice
xlm_quote sell_amount = record {
  sell_asset = codes "stellar:XLM";
  buy_asset = codes "iso4217:BRL";
  total_price = codes "0.20";
  price = codes "0.19";
  sell_amount = sell_amount;
  buy_amount = codes "50";
  fee = record { total = codes "0.5"; asset = codes "iso4217:BRL"; details = [] };
  sell_delivery_method = none;
  buy_delivery_method = none;
}

abbrev xlm_input : Text → NormalizeIndicativeRateInput
xlm_input sell_amount = record {
  anchor_slug = codes "anchor-1";
  corridor = record {
    slug = codes "xlm-brl";
    asset_code_from = codes "XLM";
    country_from = codes "US";
    asset_code_to = codes "BRL";
    country_to = codes "BR";
  };
  quote = xlm_quote sell_amount;
  captured_at = of_date (at (pos 1000));
  request = none;
  expected_sell_asset = some (codes "stellar:XLM");
  expected_buy_asset = none;
}

abbrev outcome : Normalized NormalizedRateQuote → Option FailureCode
outcome (ok n) = none
outcome (throws e) = some e

-- 10 for 50 at 0.20 is accepted, 12 for 50 is further off than the last places allow.
amounts_test :
    (outcome (normalize_indicative_rate no_dates (xlm_input (codes "10"))) ≡ none)
    × (outcome (normalize_indicative_rate no_dates (xlm_input (codes "12")))
        ≡ some arithmetic_inconsistency)
unfolding normalize_indicative_rate check_identity is_stable_slug differs_from_expected
    request_conflicts has_code parse_sep38_asset_identifier parse_stellar is_lumen parse_iso4217
    matches_iso4217 all_units is_upper strip_prefix text_eq code_of read_decimals
    parse_and_require_decimal parse_database_decimal validate_arithmetic_consistency check_details
    exceeds total_error total_tolerance base_error base_tolerance prices_disagree price_tolerance
    is_digit matches_decimal split_point all_digits is_zero_decimal normalize_decimal digits_value
    compare_decimals scaled abs_decimal_diff multiply_decimals power_of_ten max_decimal one_ulp
    decimal_scale add_decimals
amounts_test = (refl, refl)

normalize_indicative_rate-Ends_example :
    Ends
      (IsObservationOf no_dates (xlm_input (codes "10")))
      IsPermanentCode
      (normalize_indicative_rate no_dates (xlm_input (codes "10")))
normalize_indicative_rate-Ends_example =
    normalize_indicative_rate-Ends no_dates (xlm_input (codes "10"))
