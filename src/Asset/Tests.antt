-- ===== src/Asset/Tests.antt =====
-- Runs of the asset identifiers.
use stellar_core.Prelude.{◌≡◌, refl, true, false, some, [], ◌∷◌}
use stellar_core.Prelude.Text.{Text, codes, is_digit}
use stellar_core.Asset.{
  stellar, all_units, is_upper, matches_code, unescape, decode_from, decode_sep11_asset_code,
  escape,
}
use stellar_core.Asset.Identifier.{parse_sep38_asset_identifier, build_stellar_asset_identifier}
use stellar_core.Asset.Issuer.{is_valid_stellar_issuer}
use stellar_core.Asset.RoundTrip.{build-parse_round_trip}

abbrev circle : Text
circle = codes "GA5ZSEJYB37JRC5AVCIA5MOP4RHTM335X2KGX3IHOJAPP5RE34K4KZVN"

circle-valid : is_valid_stellar_issuer circle ≡ true
unfolding is_valid_stellar_issuer all_units is_upper
circle-valid = refl

-- The last character is changed.
damaged-invalid :
    is_valid_stellar_issuer (codes "GA5ZSEJYB37JRC5AVCIA5MOP4RHTM335X2KGX3IHOJAPP5RE34K4KZVA")
    ≡ false
unfolding is_valid_stellar_issuer all_units is_upper
damaged-invalid = refl

abbrev odd_code : Text
odd_code = codes "A:B"

odd_code-matches : matches_code odd_code ≡ true
unfolding matches_code all_units
odd_code-matches = refl

escape_test : escape odd_code ≡ b'A' ∷ b'\\' ∷ b':' ∷ b'B' ∷ []
unfolding escape
escape_test = refl

hex_escape_test : decode_sep11_asset_code (b'\\' ∷ codes "x41B") ≡ some (codes "AB")
unfolding decode_sep11_asset_code decode_from unescape is_digit
hex_escape_test = refl

build-parse_round_trip_example :
    (value : Text) × (build_stellar_asset_identifier odd_code (some circle) ≡ some value)
    × (parse_sep38_asset_identifier value ≡ some (stellar odd_code (some circle) value))
build-parse_round_trip_example =
    build-parse_round_trip odd_code circle odd_code-matches circle-valid
