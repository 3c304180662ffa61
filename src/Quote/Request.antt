-- ===== src/Quote/Request.antt =====
-- lib/stellar/sep38.ts: the validation of a quote request, and the body of a firm one.
use stellar_core.Prelude.{
  Bool, true, false, not, ◌&&◌, ◌||◌, Option, none, some, [], ◌∷◌, leb, ◌==◌, if◌then◌else◌, length,
}
use stellar_core.Prelude.Int.{ℤ}
use stellar_core.Prelude.Predicates.{any}
use stellar_core.Prelude.Result.{ok, throws, ◌>>=◌, ◌>>◌, throw_if}
use stellar_core.Prelude.Text.{Text, codes, text_eq, is_digit}
use stellar_core.Asset.{all_units, is_upper}
use stellar_core.Errors.{invalid_request}
use stellar_core.Quote.{Sep38QuoteRequest}
use stellar_core.Quote.Fields.{Parsed, is_blank, validate_decimal, parse_asset}

-- A string that is present and not empty.
unfoldable pub truthy : Option Text → Bool
truthy (some (c ∷ s)) = true
truthy _ = false

unfoldable pub is_given : Option Text → Bool
is_given none = false
is_given (some s) = true

-- `COUNTRY_CODE_PATTERN`.
unfoldable pub is_region : Text → Bool
is_region region =
    leb 1 (length region)
    && leb (length region) 3
    && all_units (λ c. is_upper c || is_digit c) region

unfoldable pub is_subdivision : Text → Bool
unfolding is_region
is_subdivision [] = true
is_subdivision (c ∷ s) = c == b'-' && is_region s

unfoldable pub matches_country_code : Text → Bool
unfolding is_subdivision
matches_country_code (a ∷ b ∷ s) = is_upper a && is_upper b && is_subdivision s
matches_country_code _ = false

-- `validateText`; the trimmed text is not used.
unfoldable pub has_line_break : Text → Bool
has_line_break s = any (λ c. c == 10 || c == 13) s

unfoldable pub validate_text : Option Text → Parsed (Unit {0})
unfolding has_line_break
validate_text none = ok tt
validate_text (some s) = throw_if (is_blank s || has_line_break s) invalid_request

unfoldable pub validate_country : Option Text → Parsed (Unit {0})
unfolding matches_country_code
validate_country none = ok tt
validate_country (some code) = throw_if (not (matches_country_code code)) invalid_request

unfoldable pub validate_optional_request_fields : Sep38QuoteRequest → Parsed (Unit {0})
unfolding validate_text validate_country
validate_optional_request_fields r = do
  validate_text r.sell_delivery_method
  validate_text r.buy_delivery_method
  validate_country r.country_code

-- The amount that is given is checked.
unfoldable pub validate_amounts : Option Text → Option Text → Parsed (Unit {0})
validate_amounts (some amount) none = validate_decimal invalid_request amount true
validate_amounts none (some amount) = validate_decimal invalid_request amount true
validate_amounts _ _ = throws invalid_request

-- `contexts.includes(request.context)`.
unfoldable pub is_context : Bool → Text → Bool
is_context firm context =
    text_eq context (codes "sep6")
    || text_eq context (codes "sep31")
    || (firm && text_eq context (codes "sep24"))

-- `/(?:Z|[+-]\d{2}:\d{2})$/` on the whole of what is left.
unfoldable pub is_zone : Text → Bool
is_zone (z ∷ []) = z == b'Z'
is_zone (sign ∷ a ∷ b ∷ colon ∷ c ∷ d ∷ []) =
    (sign == b'+' || sign == b'-')
    && colon == b':'
    && is_digit a
    && is_digit b
    && is_digit c
    && is_digit d
is_zone _ = false

unfoldable pub ends_with_zone : Text → Bool
unfolding is_zone
ends_with_zone [] = false
ends_with_zone (c ∷ s) = is_zone (c ∷ s) || ends_with_zone s

module _ (parse_date : Text → Option ℤ) where
  unfoldable pub is_iso_date_time : Text → Bool
  unfolding ends_with_zone is_zone
  is_iso_date_time value =
      ends_with_zone value && elim (parse_date value) [ none ↦ false | some t ↦ true ]

  -- `expireAfter` of a firm request.
  unfoldable pub validate_expiry : Bool → Option Text → Parsed (Unit {0})
  validate_expiry firm none = ok tt
  validate_expiry firm (some expiry) =
      throw_if (firm && truthy (some expiry) && not (is_iso_date_time expiry)) invalid_request

  unfoldable pub validate_quote_request : Sep38QuoteRequest → Bool → Parsed (Unit {0})
  unfolding validate_expiry
  validate_quote_request r firm = do
    sell ← parse_asset r.sell_asset
    buy ← parse_asset r.buy_asset
    throw_if (text_eq r.sell_asset r.buy_asset) invalid_request
    validate_amounts r.sell_amount r.buy_amount
    throw_if (not (is_context firm r.context)) invalid_request
    throw_if (truthy r.sell_delivery_method && truthy r.buy_delivery_method) invalid_request
    validate_expiry firm r.expire_after
    validate_optional_request_fields r

  -- A property that is left out where its value is empty.
  unless_empty : Option Text → Option Text
  unless_empty value = if truthy value then value else none

  -- `Sep38FirmQuoteWireRequest` has the fields of a request.
  unfoldable pub build_sep38_firm_quote_request : Sep38QuoteRequest → Parsed Sep38QuoteRequest
  unfolding unless_empty
  build_sep38_firm_quote_request r = do
    validate_quote_request r true
    ok (record {
      sell_asset = r.sell_asset;
      buy_asset = r.buy_asset;
      sell_amount = r.sell_amount;
      buy_amount = if is_given r.sell_amount then none else r.buy_amount;
      context = r.context;
      expire_after = unless_empty r.expire_after;
      sell_delivery_method = unless_empty r.sell_delivery_method;
      buy_delivery_method = unless_empty r.buy_delivery_method;
      country_code = unless_empty r.country_code;
    })
