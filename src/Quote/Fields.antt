-- ===== src/Quote/Fields.antt =====
-- lib/stellar/sep38.ts: the readers of single fields.
use stellar_core.Prelude.{
  Bool, true, false, not, ◌&&◌, ◌||◌, Option, none, some, List, [], ◌∷◌, ltb, ◌==◌, if◌then◌else◌,
  length,
}
use stellar_core.Prelude.Result.{Result, ok, throws, ◌>>=◌, ◌>>◌, throw_if, map_result}
use stellar_core.Prelude.Text.{trim_start, trim_end, Text, codes, text_eq}
use stellar_core.Asset.{value_of}
use stellar_core.Asset.Identifier.{parse_sep38_asset_identifier}
use stellar_core.Decimal.{matches_decimal}
use stellar_core.Errors.{ErrorCode, invalid_asset, invalid_data}
use stellar_core.Quote.{
  object, Json, string, array, Members, items_of, property_of, Sep38FeeDetail, Sep38Fee,
}

abbrev pub Parsed : Type 0 → Type 0
Parsed A = Result ErrorCode A

unfoldable pub require_record : Option Json → Parsed Members
require_record (some (object members)) = ok members
require_record _ = throws invalid_data

unfoldable pub is_blank : Text → Bool
is_blank s = text_eq (trim_end (trim_start s)) []

unfoldable pub require_string : Option Json → Parsed Text
unfolding is_blank
require_string (some (string s)) =
    if is_blank s then throws invalid_data else ok (trim_end (trim_start s))
require_string _ = throws invalid_data

-- `/^0(?:\.0+)?$/`.
unfoldable pub all_zeros : Text → Bool
all_zeros [] = true
all_zeros (c ∷ s) = c == b'0' && all_zeros s

unfoldable pub matches_zero : Text → Bool
matches_zero [] = false
matches_zero (c ∷ []) = c == b'0'
matches_zero (c ∷ d ∷ s) = c == b'0' && d == b'.' && ltb 0 (length s) && all_zeros s

-- `validateDecimal`, with the error of a request or of a response.
unfoldable pub validate_decimal : ErrorCode → Text → Bool → Parsed (Unit {0})
validate_decimal error value positive =
    throw_if (not (matches_decimal value) || (positive && matches_zero value)) error

unfoldable pub require_decimal : Option Json → Bool → Parsed Text
require_decimal (some (string s)) positive = do validate_decimal invalid_data s positive; ok s
require_decimal _ positive = throws invalid_data

-- `parseAsset`.
unfoldable pub parse_asset : Text → Parsed Text
parse_asset value = elim (parse_sep38_asset_identifier value) [
  | none ↦ throws invalid_asset
  | some identifier ↦ ok (value_of identifier)
]

unfoldable pub require_asset : Option Json → Parsed Text
require_asset value = do s ← require_string value; parse_asset s

-- A field that may be missing.
unfoldable pub optional_string : Option Json → Parsed (Option Text)
optional_string none = ok none
optional_string (some value) = do s ← require_string (some value); ok (some s)

-- `record.asset !== undefined ? parseAsset(...) : request.asset`.
unfoldable pub asset_or : Option Json → Text → Parsed Text
asset_or none default = ok default
asset_or (some value) default = require_asset (some value)

unfoldable pub parse_fee_detail : Json → Parsed Sep38FeeDetail
parse_fee_detail detail = do
  m ← require_record (some detail)
  name ← require_string (property_of m (codes "name"))
  description ← optional_string (property_of m (codes "description"))
  amount ← require_decimal (property_of m (codes "amount")) false
  ok (record { name = name; description = description; amount = amount })

unfoldable pub parse_fee_details : Option Json → Parsed (List Sep38FeeDetail)
parse_fee_details none = ok []
parse_fee_details (some (array items)) = map_result parse_fee_detail (items_of items)
parse_fee_details (some _) = throws invalid_data

unfoldable pub parse_fee : Option Json → Parsed Sep38Fee
parse_fee value = do
  m ← require_record value
  details ← parse_fee_details (property_of m (codes "details"))
  total ← require_decimal (property_of m (codes "total")) false
  asset ← require_asset (property_of m (codes "asset"))
  ok (record { total = total; asset = asset; details = details })
