-- ===== src/Quote/Tests.antt =====
-- Answers of a quote server.
use stellar_core.Prelude.{◌≡◌, refl, Bool, true, false, Option, none, some}
use stellar_core.Prelude.Int.{ℤ, pos}
use stellar_core.Prelude.Result.{ok, throws, Ends}
use stellar_core.Prelude.Text.{strip_prefix, trim_start, trim_end, Text, codes, text_eq, all_digits}
use Prim.Native.String.{String}
use stellar_core.Asset.{value_of, all_units, is_upper, matches_iso4217}
use stellar_core.Asset.Identifier.{
  is_lumen, parse_iso4217, parse_stellar, parse_sep38_asset_identifier,
}
use stellar_core.Decimal.{split_point, matches_decimal}
use stellar_core.Quote.{
  object, Json, string, Members, no_members, member, property_of, Sep38QuoteRequest,
}
use stellar_core.Quote.Answers.{IsPrice, parse_sep38_indicative_price-Ends}
use stellar_core.Quote.Fields.{
  Parsed, require_record, is_blank, require_string, all_zeros, matches_zero, validate_decimal,
  require_decimal, parse_asset, require_asset, optional_string, asset_or, parse_fee_details,
  parse_fee,
}
use stellar_core.Quote.Firm.{IsFirmFor, parse_sep38_firm_quote-Ends}
use stellar_core.Quote.Price.{
  same_text, matches_request, check_expected, parse_sep38_indicative_price, parse_sep38_firm_quote,
}
use stellar_core.Quote.Request.{
  truthy, validate_optional_request_fields, validate_amounts, is_context, is_iso_date_time,
  validate_quote_request,
}
use stellar_core.Quote.Sound.{IsParseError}

abbrev no_dates : Text → Option ℤ
no_dates t = none

abbrev any_date : Text → Option ℤ
any_date t = some (pos 0)

abbrev field : String → String → Members → Members
field key value members = member (codes key) (string (codes value)) members

abbrev fee_answer : Json
fee_answer = object (field "total" "0.5" (field "asset" "iso4217:BRL" no_members))

abbrev price_answer : Json
price_answer = object (
    field "total_price" "0.20" (
      field "price" "0.19" (
        field "sell_amount" "10"
          (field "buy_amount" "50" (member (codes "fee") fee_answer no_members)))))

abbrev firm_answer : Json
firm_answer = object (
    field "id" "q1" (
      field "expires_at" "2026-01-01T00:00:00Z" (
        field "total_price" "0.20" (
          field "price" "0.19" (
            field "sell_asset" "stellar:XLM" (
              field "sell_amount" "10" (
                field "buy_asset" "iso4217:BRL"
                  (field "buy_amount" "50" (member (codes "fee") fee_answer no_members)))))))))

abbrev xlm_to_brl : Sep38QuoteRequest
xlm_to_brl = record {
  sell_asset = codes "stellar:XLM";
  buy_asset = codes "iso4217:BRL";
  sell_amount = some (codes "10");
  buy_amount = none;
  context = codes "sep6";
  expire_after = none;
  sell_delivery_method = none;
  buy_delivery_method = none;
  country_code = some (codes "BR");
}

abbrev succeeds : {A : Type 0} → Parsed A → Bool
succeeds (ok a) = true
succeeds (throws e) = false

price_test : succeeds (parse_sep38_indicative_price no_dates (some price_answer) xlm_to_brl) ≡ true
unfolding parse_sep38_indicative_price validate_quote_request validate_amounts validate_decimal
    validate_optional_request_fields parse_asset parse_sep38_asset_identifier parse_stellar is_lumen
    parse_iso4217 matches_iso4217 all_units is_upper strip_prefix text_eq require_record property_of
    asset_or require_decimal matches_decimal split_point all_digits matches_zero parse_fee
    parse_fee_details require_asset require_string is_blank trim_end trim_start optional_string
    truthy is_context value_of all_zeros
price_test = refl

firm_test : succeeds (parse_sep38_firm_quote any_date (some firm_answer) (some xlm_to_brl)) ≡ true
unfolding parse_sep38_firm_quote is_iso_date_time check_expected matches_request same_text
    validate_decimal parse_asset parse_sep38_asset_identifier parse_stellar is_lumen parse_iso4217
    matches_iso4217 all_units is_upper strip_prefix text_eq require_record property_of
    require_decimal matches_decimal split_point all_digits matches_zero parse_fee parse_fee_details
    require_asset require_string is_blank trim_end trim_start optional_string value_of all_zeros
firm_test = refl

parse_sep38_indicative_price-Ends_example :
    Ends IsPrice IsParseError (parse_sep38_indicative_price no_dates (some price_answer) xlm_to_brl)
parse_sep38_indicative_price-Ends_example =
    parse_sep38_indicative_price-Ends no_dates (some price_answer) xlm_to_brl

parse_sep38_firm_quote-Ends_example :
    Ends
      (IsFirmFor any_date xlm_to_brl)
      IsParseError
      (parse_sep38_firm_quote any_date (some firm_answer) (some xlm_to_brl))
parse_sep38_firm_quote-Ends_example =
    parse_sep38_firm_quote-Ends any_date (some firm_answer) xlm_to_brl
