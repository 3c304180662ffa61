-- ===== src/Quote/Price.antt =====
-- lib/stellar/sep38.ts: `parseSep38IndicativePrice` and `parseSep38FirmQuote`.
use stellar_core.Prelude.{Bool, true, false, not, ◌&&◌, Option, none, some}
use stellar_core.Prelude.Int.{ℤ}
use stellar_core.Prelude.Result.{ok, ◌>>=◌, ◌>>◌, throw_if}
use stellar_core.Prelude.Text.{Text, codes, text_eq}
use stellar_core.Errors.{invalid_data}
use stellar_core.Quote.{Json, property_of, Sep38IndicativePrice, Sep38FirmQuote, Sep38QuoteRequest}
use stellar_core.Quote.Fields.{
  Parsed, require_record, require_string, require_decimal, require_asset, optional_string, asset_or,
  parse_fee,
}
use stellar_core.Quote.Request.{is_iso_date_time, validate_quote_request}

-- `quote.method !== request.method`, where both may be missing.
unfoldable pub same_text : Option Text → Option Text → Bool
same_text none none = true
same_text (some s) (some t) = text_eq s t
same_text _ _ = false

-- `validateFirmQuoteMatchesRequest`.
unfoldable pub matches_request : Sep38FirmQuote → Sep38QuoteRequest → Bool
matches_request q r =
    text_eq q.sell_asset r.sell_asset
    && text_eq q.buy_asset r.buy_asset
    && same_text q.sell_delivery_method r.sell_delivery_method
    && same_text q.buy_delivery_method r.buy_delivery_method

unfoldable pub check_expected : Sep38FirmQuote → Option Sep38QuoteRequest → Parsed (Unit {0})
check_expected q none = ok tt
check_expected q (some r) = throw_if (not (matches_request q r)) invalid_data

module _ (parse_date : Text → Option ℤ) where
  unfoldable pub parse_sep38_indicative_price :
      Option Json → Sep38QuoteRequest → Parsed Sep38IndicativePrice
  parse_sep38_indicative_price value r = do
    validate_quote_request parse_date r false
    m ← require_record value
    sell_asset ← asset_or (property_of m (codes "sell_asset")) r.sell_asset
    buy_asset ← asset_or (property_of m (codes "buy_asset")) r.buy_asset
    total_price ← require_decimal (property_of m (codes "total_price")) true
    price ← require_decimal (property_of m (codes "price")) true
    sell_amount ← require_decimal (property_of m (codes "sell_amount")) true
    buy_amount ← require_decimal (property_of m (codes "buy_amount")) true
    fee ← parse_fee (property_of m (codes "fee"))
    sell_method ← optional_string (property_of m (codes "sell_delivery_method"))
    buy_method ← optional_string (property_of m (codes "buy_delivery_method"))
    ok (record {
      sell_asset = sell_asset;
      buy_asset = buy_asset;
      total_price = total_price;
      price = price;
      sell_amount = sell_amount;
      buy_amount = buy_amount;
      fee = fee;
      sell_delivery_method = sell_method;
      buy_delivery_method = buy_method;
    })

  unfoldable pub parse_sep38_firm_quote :
      Option Json → Option Sep38QuoteRequest → Parsed Sep38FirmQuote
  parse_sep38_firm_quote value expected = do
    m ← require_record value
    id ← require_string (property_of m (codes "id"))
    expires_at ← require_string (property_of m (codes "expires_at"))
    throw_if (not (is_iso_date_time parse_date expires_at)) invalid_data
    total_price ← require_decimal (property_of m (codes "total_price")) true
    price ← require_decimal (property_of m (codes "price")) true
    sell_asset ← require_asset (property_of m (codes "sell_asset"))
    sell_amount ← require_decimal (property_of m (codes "sell_amount")) true
    sell_method ← optional_string (property_of m (codes "sell_delivery_method"))
    buy_asset ← require_asset (property_of m (codes "buy_asset"))
    buy_amount ← require_decimal (property_of m (codes "buy_amount")) true
    buy_method ← optional_string (property_of m (codes "buy_delivery_method"))
    fee ← parse_fee (property_of m (codes "fee"))
    let quote : Sep38FirmQuote = record {
      id = id;
      expires_at = expires_at;
      total_price = total_price;
      price = price;
      sell_asset = sell_asset;
      sell_amount = sell_amount;
      sell_delivery_method = sell_method;
      buy_asset = buy_asset;
      buy_amount = buy_amount;
      buy_delivery_method = buy_method;
      fee = fee;
    }
    check_expected quote expected
    ok quote
