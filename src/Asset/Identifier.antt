-- ===== src/Asset/Identifier.antt =====
-- lib/stellar/sep38.ts: `parseSep38AssetIdentifier` and the functions that build identifiers.
use mathlib.Core.Option
use stellar_core.Prelude.{
  ℕ, zero, suc, ◌+◌, Bool, ◌&&◌, ◌||◌, Option, none, some, ◌∷◌, ◌++◌, if◌then◌else◌, take, drop,
}
use stellar_core.Prelude.Text.{strip_prefix, Text, codes, text_eq}
use stellar_core.Asset.{
  ParsedSep38AssetIdentifier, iso4217, stellar, liquidity_pool, value_of, matches_iso4217,
  matches_code, matches_pool, find_sep11_asset_separator, decode_sep11_asset_code,
  encode_sep11_asset_code,
}
use stellar_core.Asset.Issuer.{is_valid_stellar_issuer}

abbrev pub iso4217_prefix : Text
iso4217_prefix = codes "iso4217:"

abbrev pub stellar_prefix : Text
stellar_prefix = codes "stellar:"

unfoldable pub is_lumen : Text → Bool
is_lumen identifier =
    text_eq identifier (codes "native")
    || text_eq identifier (codes "XLM")
    || text_eq identifier (codes "TestXLM")

unfoldable pub parse_iso4217 : Text → Text → Option ParsedSep38AssetIdentifier
parse_iso4217 code value = if matches_iso4217 code then some (iso4217 code value) else none

-- A code before the separator and its issuer behind it.
unfoldable pub parse_issued : Option Text → Text → Text → Option ParsedSep38AssetIdentifier
parse_issued none issuer value = none
parse_issued (some code) issuer value =
    if matches_code code && is_valid_stellar_issuer issuer
    then some (stellar code (some issuer) value)
    else none

unfoldable pub parse_separated : Text → Text → Text → Option ParsedSep38AssetIdentifier
parse_separated encoded_code issuer value =
    if text_eq issuer (codes "lp") && matches_pool encoded_code
    then some (liquidity_pool encoded_code value)
    else parse_issued (decode_sep11_asset_code encoded_code) issuer value

-- `separator <= 0` is the case of no separator and that of one at the start.
unfoldable pub parse_at : Option ℕ → Text → Text → Option ParsedSep38AssetIdentifier
parse_at none identifier value = none
parse_at (some zero) identifier value = none
parse_at (some (suc n)) identifier value =
    parse_separated (take (suc n) identifier) (drop (suc n + 1) identifier) value

unfoldable pub parse_stellar : Text → Text → Option ParsedSep38AssetIdentifier
parse_stellar identifier value =
    if is_lumen identifier
    then some (stellar identifier none value)
    else parse_at (find_sep11_asset_separator identifier) identifier value

unfoldable pub parse_sep38_asset_identifier : Text → Option ParsedSep38AssetIdentifier
parse_sep38_asset_identifier value = elim (strip_prefix iso4217_prefix value) [
  | some code ↦ parse_iso4217 code value
  | none ↦ elim (strip_prefix stellar_prefix value) [
    | some identifier ↦ parse_stellar identifier value
    | none ↦ none
  ]
]

unfoldable pub build_iso4217_asset_identifier : Text → Option Text
build_iso4217_asset_identifier code =
    Option.map value_of (parse_sep38_asset_identifier (iso4217_prefix ++ code))

-- `undefined` as the issuer is `none`.
unfoldable pub build_stellar_asset_identifier : Text → Option Text → Option Text
build_stellar_asset_identifier code none =
    Option.map value_of (parse_sep38_asset_identifier (stellar_prefix ++ code))
build_stellar_asset_identifier code (some issuer) = elim (encode_sep11_asset_code code) [
  | none ↦ none
  | some encoded ↦
      Option.map value_of
        (parse_sep38_asset_identifier (stellar_prefix ++ (encoded ++ b':' ∷ issuer)))
]

unfoldable pub build_stellar_liquidity_pool_asset_identifier : Text → Option Text
build_stellar_liquidity_pool_asset_identifier id =
    Option.map value_of (parse_sep38_asset_identifier (stellar_prefix ++ (id ++ codes ":lp")))
