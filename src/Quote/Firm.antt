-- ===== src/Quote/Firm.antt =====
-- lib/stellar/sep38.ts: a parsed firm quote answers the request that was made.
use stellar_core.Prelude.{◌≡◌, refl, ap, inl, Bool, true, false, not, Option, none, some, arith}
use stellar_core.Prelude.Int.{ℤ}
use stellar_core.Prelude.Result.{ok, ◌>>◌, throw_if, Ends, Ends-guard}
use stellar_core.Prelude.Text.{Text, text_eq, text_eq_iff}
use stellar_core.Errors.{invalid_data}
use stellar_core.Quote.{Json, Sep38FirmQuote, Sep38QuoteRequest}
use stellar_core.Quote.Fields.{Parsed}
use stellar_core.Quote.Price.{same_text, matches_request, check_expected, parse_sep38_firm_quote}
use stellar_core.Quote.Request.{is_iso_date_time}
use stellar_core.Quote.Sound.{
  IsParseError, Reads, IsDecimal, IsAsset, require_record-Ends, require_string-Ends,
  require_decimal-Ends, Reads-then, require_asset-Ends, optional_string-Ends, IsFee, parse_fee-Ends,
}

pub record IsFirmFor (parse_date : Text → Option ℤ) (r : Sep38QuoteRequest) (q : Sep38FirmQuote)
    : Type 0 where
  pub total_price_decimal : IsDecimal true q.total_price
  pub price_decimal : IsDecimal true q.price
  pub sell_amount_decimal : IsDecimal true q.sell_amount
  pub buy_amount_decimal : IsDecimal true q.buy_amount
  pub expiry_valid : is_iso_date_time parse_date q.expires_at ≡ true
  pub same_sell_asset : q.sell_asset ≡ r.sell_asset
  pub same_buy_asset : q.buy_asset ≡ r.buy_asset
  pub same_sell_method : q.sell_delivery_method ≡ r.sell_delivery_method
  pub same_buy_method : q.buy_delivery_method ≡ r.buy_delivery_method

same_text-eq : (s t : Option Text) → same_text s t ≡ true → s ≡ t
unfolding same_text
same_text-eq none none e = refl
same_text-eq none (some t) e = cc
same_text-eq (some s) none e = cc
same_text-eq (some s) (some t) e = ap some ((text_eq_iff s t).0 e)

matches_parts :
    (q : Sep38FirmQuote) (r : Sep38QuoteRequest)
    → not (matches_request q r) ≡ false
    → (text_eq q.sell_asset r.sell_asset ≡ true)
      × (text_eq q.buy_asset r.buy_asset ≡ true)
      × (same_text q.sell_delivery_method r.sell_delivery_method ≡ true)
      × (same_text q.buy_delivery_method r.buy_delivery_method ≡ true)
unfolding matches_request
matches_parts q r e = ground (arith, e)

data_guard_then :
    {B : Type 0} (Q : B → Type 0) (b : Bool) (k : Parsed B)
    → (b ≡ false → Reads Q k)
    → Reads Q (throw_if b invalid_data >> k)
data_guard_then Q b k h = Ends-guard Q IsParseError b invalid_data k (inl refl) h

module _ (parse_date : Text → Option ℤ) where
  checked-IsFirmFor :
      (r : Sep38QuoteRequest) (q : Sep38FirmQuote)
      → IsDecimal true q.total_price
      → IsDecimal true q.price
      → IsDecimal true q.sell_amount
      → IsDecimal true q.buy_amount
      → is_iso_date_time parse_date q.expires_at ≡ true
      → Reads (IsFirmFor parse_date r) (check_expected q (some r) >> ok q)
  unfolding check_expected
  checked-IsFirmFor r q total price sell buy expiry =
      data_guard_then (IsFirmFor parse_date r) (not (matches_request q r)) (ok q) (λ m.
        let same = matches_parts q r m in
        record {
          total_price_decimal = total;
          price_decimal = price;
          sell_amount_decimal = sell;
          buy_amount_decimal = buy;
          expiry_valid = expiry;
          same_sell_asset = (text_eq_iff q.sell_asset r.sell_asset).0 same.0;
          same_buy_asset = (text_eq_iff q.buy_asset r.buy_asset).0 same.1;
          same_sell_method = same_text-eq q.sell_delivery_method r.sell_delivery_method same.2;
          same_buy_method = same_text-eq q.buy_delivery_method r.buy_delivery_method same.3;
        })

  -- Whatever JSON is answered to a request for a firm quote, parsing it ends with a quote of the
  -- requested assets and delivery methods, with positive decimals and a dated expiry, or with
  -- INVALID_DATA, INVALID_ASSET or INVALID_REQUEST.
  pub parse_sep38_firm_quote-Ends :
      (value : Option Json) (r : Sep38QuoteRequest)
      → Ends
          (IsFirmFor parse_date r)
          IsParseError
          (parse_sep38_firm_quote parse_date value (some r))
  unfolding parse_sep38_firm_quote
  parse_sep38_firm_quote-Ends value r =
      let Q : Sep38FirmQuote → Type 0 = IsFirmFor parse_date r in
      Reads-then (λ _. Unit) Q _ _ (require_record-Ends value)
        (λ m _.
          Reads-then (λ _. Unit) Q _ _ (require_string-Ends _)
            (λ _ _.
              Reads-then (λ _. Unit) Q _ _ (require_string-Ends _)
                (λ expires_at _.
                  data_guard_then Q (not (is_iso_date_time parse_date expires_at)) _ (λ dated.
                    Reads-then (IsDecimal true) Q _ _ (require_decimal-Ends _ true) (λ _ total.
                      Reads-then (IsDecimal true) Q _ _ (require_decimal-Ends _ true) (λ _ price.
                        Reads-then IsAsset Q _ _ (require_asset-Ends _) (λ _ _.
                          Reads-then (IsDecimal true) Q _ _ (require_decimal-Ends _ true) (λ _ sell.
                            Reads-then (λ _. Unit) Q _ _ (optional_string-Ends _)
                              (λ _ _. Reads-then IsAsset Q _ _ (require_asset-Ends _) (λ _ _.
                                Reads-then (IsDecimal true) Q _ _ (require_decimal-Ends _ true)
                                  (λ _ buy.
                                    Reads-then (λ _. Unit) Q _ _ (optional_string-Ends _)
                                      (λ _ _. Reads-then IsFee Q _ _ (parse_fee-Ends _) (λ _ _.
                                        checked-IsFirmFor r _ total price sell buy
                                          (ground (arith, dated)))))))))))))))
