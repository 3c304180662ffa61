-- ===== src/Quote/Answers.antt =====
-- lib/stellar/sep38.ts: the parsed prices and firm quotes as a whole.
use stellar_core.Prelude.{
  refl, inl, inr, true, not, ◌||◌, Option, none, some, Bool-cases, ◌≡◌, Bool, false, Option-cases,
  ◌&&◌,
}
use stellar_core.Prelude.Int.{ℤ}
use stellar_core.Prelude.Result.{ok, throws, throw_if, Ends, ◌>>◌, Ends-guard}
use stellar_core.Prelude.Text.{Text, strip_prefix, text_eq}
use stellar_core.Asset.Identifier.{parse_sep38_asset_identifier}
use stellar_core.Decimal.{matches_decimal}
use stellar_core.Errors.{invalid_request}
use stellar_core.Quote.{Sep38IndicativePrice, Json, Sep38QuoteRequest}
use stellar_core.Quote.Fields.{matches_zero, validate_decimal, Parsed, parse_asset}
use stellar_core.Quote.Price.{parse_sep38_indicative_price}
use stellar_core.Quote.Request.{
  validate_amounts, validate_optional_request_fields, validate_quote_request, validate_text,
  validate_country, validate_expiry, truthy, is_context,
}
use stellar_core.Quote.Sound.{
  Reads, IsDecimal, IsAsset, IsFee, IsParseError, require_record-Ends, require_decimal-Ends,
  Reads-then, asset_or-Ends, optional_string-Ends, parse_fee-Ends,
}

-- A price whose amounts are positive decimals and whose assets are identifiers.
pub record IsPrice (q : Sep38IndicativePrice) : Type 0 where
  pub total_price_decimal : IsDecimal true q.total_price
  pub price_decimal : IsDecimal true q.price
  pub sell_amount_decimal : IsDecimal true q.sell_amount
  pub buy_amount_decimal : IsDecimal true q.buy_amount
  pub sell_identifier : IsAsset q.sell_asset
  pub buy_identifier : IsAsset q.buy_asset
  pub fee_valid : IsFee q.fee

validate_amounts-Ends : (sell buy : Option Text) → Reads (λ _. Unit {0}) (validate_amounts sell buy)
unfolding validate_amounts validate_decimal
validate_amounts-Ends none none = inr (inr refl)
validate_amounts-Ends (some a) (some b) = inr (inr refl)
validate_amounts-Ends (some a) none =
    elim (Bool-cases (not (matches_decimal a) || matches_zero a)) [
      | inl e ↦ rw e (inr (inr refl))
      | inr e ↦ rw e tt
    ]
validate_amounts-Ends none (some a) =
    elim (Bool-cases (not (matches_decimal a) || matches_zero a)) [
      | inl e ↦ rw e (inr (inr refl))
      | inr e ↦ rw e tt
    ]

-- A test of the request that may throw.
throw_if-Ends : (b : Bool) → Reads (λ _. Unit {0}) (throw_if b invalid_request)
throw_if-Ends true = inr (inr refl)
throw_if-Ends false = tt

validate_text-Ends : (value : Option Text) → Reads (λ _. Unit {0}) (validate_text value)
unfolding validate_text
validate_text-Ends none = tt
validate_text-Ends (some s) = throw_if-Ends _

validate_country-Ends : (value : Option Text) → Reads (λ _. Unit {0}) (validate_country value)
unfolding validate_country
validate_country-Ends none = tt
validate_country-Ends (some s) = throw_if-Ends _

validate_optional-Ends :
    (r : Sep38QuoteRequest) → Reads (λ _. Unit {0}) (validate_optional_request_fields r)
unfolding validate_optional_request_fields
validate_optional-Ends r =
    Reads-then (λ _. Unit) (λ _. Unit) _ _ (validate_text-Ends r.sell_delivery_method)
      (λ _ _.
        Reads-then (λ _. Unit) (λ _. Unit) _ _ (validate_text-Ends r.buy_delivery_method)
          (λ _ _. validate_country-Ends r.country_code))

abbrev pub HasAssets : Sep38QuoteRequest → Type 0
HasAssets r =
    IsAsset r.sell_asset × IsAsset r.buy_asset × (text_eq r.sell_asset r.buy_asset ≡ false)

with_fact : {A : Type 0} (F : Type 0) (m : Parsed A) → F → Reads (λ _. Unit) m → Reads (λ _. F) m
with_fact F (ok a) f h = f
with_fact F (throws e) f h = h

-- `parse_asset` gives back the identifier that it was given.
parse_asset-own : (s : Text) → Reads (λ _. IsAsset s) (parse_asset s)
unfolding parse_asset parse_sep38_asset_identifier strip_prefix
parse_asset-own s = elim (Option-cases (parse_sep38_asset_identifier s)) [
  | inl e ↦ rw e (inr (inl refl))
  | inr (p, e) ↦ rw e (p, refl)
]

guard_then :
    {B : Type 0} (Q : B → Type 0) (b : Bool) (k : Parsed B)
    → (b ≡ false → Reads Q k)
    → Reads Q (throw_if b invalid_request >> k)
guard_then Q b k h = Ends-guard Q IsParseError b invalid_request k (inr (inr refl)) h

unit_then :
    {B : Type 0} (Q : B → Type 0) (m : Parsed (Unit {0})) (k : Parsed B)
    → Reads (λ _. Unit {0}) m
    → Reads Q k
    → Reads Q (m >> k)
unit_then Q (ok u) k h l = l
unit_then Q (throws e) k h l = h

module _ (parse_date : Text → Option ℤ) where
  validate_expiry-Ends :
      (firm : Bool) (value : Option Text)
      → Reads (λ _. Unit {0}) (validate_expiry parse_date firm value)
  unfolding validate_expiry
  validate_expiry-Ends firm none = tt
  validate_expiry-Ends firm (some s) = throw_if-Ends _

  validate_quote_request-Ends :
      (r : Sep38QuoteRequest) (firm : Bool)
      → Reads (λ _. HasAssets r) (validate_quote_request parse_date r firm)
  unfolding validate_quote_request
  validate_quote_request-Ends r firm =
      let Q : Unit {0} → Type 0 = λ _. HasAssets r in
      let both = truthy r.sell_delivery_method && truthy r.buy_delivery_method in
      let fields = validate_optional_request_fields r in
      let expiry = validate_expiry parse_date firm r.expire_after in
      let context = not (is_context firm r.context) in
      let from_methods = throw_if both invalid_request >> (expiry >> fields) in
      let from_context = throw_if context invalid_request >> from_methods in
      let amounts = validate_amounts r.sell_amount r.buy_amount in
      Reads-then (λ _. IsAsset r.sell_asset) Q _ _ (parse_asset-own r.sell_asset)
        (λ _ s.
          Reads-then (λ _. IsAsset r.buy_asset) Q _ _ (parse_asset-own r.buy_asset)
            (λ _ b. guard_then Q (text_eq r.sell_asset r.buy_asset) (amounts >> from_context) (λ d.
              unit_then Q amounts from_context (validate_amounts-Ends r.sell_amount r.buy_amount) (
                guard_then Q context from_methods (λ _. guard_then Q both (expiry >> fields) (λ _.
                  unit_then Q expiry fields (validate_expiry-Ends firm r.expire_after)
                    (with_fact (HasAssets r) fields (s, b, d) (validate_optional-Ends r))))))))

  -- Whatever JSON a quote server answers, parsing it as an indicative price ends with a price whose
  -- amounts are positive decimals, whose fees are decimals and whose assets are identifiers, or with
  -- INVALID_DATA, INVALID_ASSET or INVALID_REQUEST.
  pub parse_sep38_indicative_price-Ends :
      (value : Option Json) (r : Sep38QuoteRequest)
      → Ends IsPrice IsParseError (parse_sep38_indicative_price parse_date value r)
  unfolding parse_sep38_indicative_price
  parse_sep38_indicative_price-Ends value r =
      Reads-then (λ _. HasAssets r) IsPrice _ _ (validate_quote_request-Ends r false)
        (λ _ assets.
          Reads-then (λ _. Unit) IsPrice _ _ (require_record-Ends value)
            (λ m _.
              Reads-then IsAsset IsPrice _ _ (asset_or-Ends _ r.sell_asset assets.0) (λ _ sell.
                Reads-then IsAsset IsPrice _ _ (asset_or-Ends _ r.buy_asset assets.1) (λ _ buy.
                  Reads-then (IsDecimal true) IsPrice _ _ (require_decimal-Ends _ true) (λ _ total.
                    Reads-then (IsDecimal true) IsPrice _ _ (require_decimal-Ends _ true)
                      (λ _ price.
                        Reads-then (IsDecimal true) IsPrice _ _ (require_decimal-Ends _ true)
                          (λ _ sell_amount.
                            Reads-then (IsDecimal true) IsPrice _ _ (require_decimal-Ends _ true)
                              (λ _ buy_amount.
                                Reads-then IsFee IsPrice _ _ (parse_fee-Ends _) (λ _ fee.
                                  Reads-then (λ _. Unit) IsPrice _ _ (optional_string-Ends _)
                                    (λ _ _.
                                      Reads-then (λ _. Unit) IsPrice _ _ (optional_string-Ends _)
                                        (λ _ _. record {
                                          total_price_decimal = total;
                                          price_decimal = price;
                                          sell_amount_decimal = sell_amount;
                                          buy_amount_decimal = buy_amount;
                                          sell_identifier = sell;
                                          buy_identifier = buy;
                                          fee_valid = fee;
                                        })))))))))))
