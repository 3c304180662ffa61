-- ===== src/Asset.antt =====
-- lib/stellar/sep38.ts: the identifiers of assets, which SEP-38 and SEP-11 describe. `none` is the
-- INVALID_ASSET error.
mod Issuer
pub mod Identifier
mod RoundTrip
mod Tests
use mathlib.Core.Option
use stellar_core.Prelude.{
  ℕ, zero, suc, ◌+◌, ◌-◌, ◌*◌, Bool, true, ◌&&◌, ◌||◌, Option, none, some, [], ◌∷◌, map, leb, ◌==◌,
  if◌then◌else◌, length,
}
use stellar_core.Prelude.Text.{Text, is_digit}

pub data ParsedSep38AssetIdentifier : Type 0 where
  iso4217 : Text → Text → ParsedSep38AssetIdentifier
  stellar : Text → Option Text → Text → ParsedSep38AssetIdentifier
  liquidity_pool : Text → Text → ParsedSep38AssetIdentifier

-- Their field `value`.
unfoldable pub value_of : ParsedSep38AssetIdentifier → Text
value_of (iso4217 code value) = value
value_of (stellar code issuer value) = value
value_of (liquidity_pool id value) = value

-- Their field `code`, which a liquidity pool has not.
unfoldable pub code_of : ParsedSep38AssetIdentifier → Option Text
code_of (iso4217 code value) = some code
code_of (stellar code issuer value) = some code
code_of (liquidity_pool id value) = none

-- `every` over the characters of a string.
unfoldable pub all_units : (ℕ → Bool) → Text → Bool
all_units p [] = true
all_units p (c ∷ s) = p c && all_units p s

unfoldable pub is_upper : ℕ → Bool
is_upper c = leb b'A' c && leb c b'Z'

-- `ISO4217_PATTERN`.
unfoldable pub matches_iso4217 : Text → Bool
matches_iso4217 code = length code == 3 && all_units is_upper code

-- `STELLAR_CODE_PATTERN`.
unfoldable pub matches_code : Text → Bool
matches_code code =
    leb 1 (length code) && leb (length code) 12 && all_units (λ c. leb 0x21 c && leb c 0x7e) code

-- `STELLAR_LIQUIDITY_POOL_PATTERN`.
unfoldable pub matches_pool : Text → Bool
matches_pool id = length id == 64 && all_units (λ c. is_digit c || (leb b'a' c && leb c b'f')) id

-- The letter after a backslash says how many characters the escape has beyond it.
unfoldable pub escape_length : Text → ℕ
escape_length [] = 1
escape_length (c ∷ s) = if c == b'x' then 3 else 1

-- The loop of `findSep11AssetSeparator`; the first argument counts the characters to pass over.
unfoldable pub separator_from : ℕ → ℕ → Text → Option ℕ
unfolding escape_length
separator_from skip index [] = none
separator_from (suc skip) index (c ∷ s) = separator_from skip (index + 1) s
separator_from zero index (c ∷ s) =
    let rest = separator_from (if c == b'\\' then escape_length s else 0) (index + 1) s in
    if c == b':' then some index else rest

unfoldable pub find_sep11_asset_separator : Text → Option ℕ
find_sep11_asset_separator identifier = separator_from 0 0 identifier

-- A hexadecimal digit.
unfoldable pub hex_value : ℕ → Option ℕ
hex_value c =
    if is_digit c
    then some (c - b'0')
    else if leb b'a' c && leb c b'f'
    then some (c - b'a' + 10)
    else if leb b'A' c && leb c b'F'
    then some (c - b'A' + 10)
    else none

unfoldable pub hex_pair : Option ℕ → Option ℕ → Option (ℕ × ℕ)
hex_pair (some high) (some low) = some (high * 16 + low, 3)
hex_pair _ _ = none

-- What follows a backslash: the character that it stands for, and the length of the escape.
unfoldable pub unescape : Text → Option (ℕ × ℕ)
unfolding hex_pair hex_value
unescape [] = none
unescape (c ∷ []) = if c == b':' || c == b'\\' then some (c, 1) else none
unescape (c ∷ h ∷ []) = if c == b':' || c == b'\\' then some (c, 1) else none
unescape (c ∷ h ∷ l ∷ s) =
    if c == b':' || c == b'\\'
    then some (c, 1)
    else if c == b'x'
    then hex_pair (hex_value h) (hex_value l)
    else none

-- The loop of `decodeSep11AssetCode`, with the characters to pass over.
unfoldable pub decode_from : ℕ → Text → Option Text
unfolding unescape
decode_from skip [] = some []
decode_from (suc skip) (c ∷ s) = decode_from skip s
decode_from zero (c ∷ s) = elim (if c == b'\\' then unescape s else some (c, 0)) [
  | none ↦ none
  | some (d, skip) ↦ Option.map (λ rest. d ∷ rest) (decode_from skip s)
]

unfoldable pub decode_sep11_asset_code : Text → Option Text
decode_sep11_asset_code value = decode_from 0 value

-- `value.replace(/[\\:]/g, ...)`.
unfoldable pub escape : Text → Text
escape [] = []
escape (c ∷ s) =
    let rest = escape s in if c == b'\\' || c == b':' then b'\\' ∷ c ∷ rest else c ∷ rest

unfoldable pub encode_sep11_asset_code : Text → Option Text
encode_sep11_asset_code value = if matches_code value then some (escape value) else none
