-- ===== src/Quote/Sound.antt =====
-- lib/stellar/sep38.ts: what a parsed answer is, and how parsing fails.
use stellar_core.Prelude.{
  ◌≡◌, refl, ◌⊎◌, inl, Bool, true, false, ◌&&◌, Option, none, some, inr, not, ◌||◌, arith,
  Bool-cases, Option-cases,
}
use stellar_core.Prelude.Predicates.{All}
use stellar_core.Prelude.Result.{Ends, ok, Ends->>=, Ends-throw_if, ◌>>=◌, Ends-map_result}
use stellar_core.Prelude.Text.{Text, strip_prefix}
use stellar_core.Asset.{ParsedSep38AssetIdentifier, value_of}
use stellar_core.Asset.Identifier.{
  parse_iso4217, parse_issued, parse_separated, parse_at, parse_stellar,
  parse_sep38_asset_identifier,
}
use stellar_core.Decimal.{matches_decimal}
use stellar_core.Errors.{ErrorCode, invalid_asset, invalid_request, invalid_data}
use stellar_core.Quote.{object, Json, string, array, items_of, Sep38FeeDetail, Sep38Fee}
use stellar_core.Quote.Fields.{
  require_record, require_string, matches_zero, validate_decimal, require_decimal, parse_asset,
  is_blank, Parsed, require_asset, optional_string, asset_or, parse_fee_detail, parse_fee_details,
  parse_fee,
}

-- The codes that parsing throws.
abbrev pub IsParseError : ErrorCode → Type 0
IsParseError e = (e ≡ invalid_data) ⊎ (e ≡ invalid_asset) ⊎ (e ≡ invalid_request)

-- The shape of every reader's lemma: what it gives, and that it throws a parse error.
abbrev pub Reads : {A : Type 0} → (A → Type 0) → Parsed A → Type 0
Reads P r = Ends P IsParseError r

abbrev pub IsDecimal : Bool → Text → Type 0
IsDecimal positive s = (matches_decimal s ≡ true) × ((positive && matches_zero s) ≡ false)

abbrev pub IsAsset : Text → Type 0
IsAsset s = (p : ParsedSep38AssetIdentifier) × (parse_sep38_asset_identifier s ≡ some p)

-- Parsing an identifier keeps it.
value_of-parse :
    (s : Text) (p : ParsedSep38AssetIdentifier)
    → parse_sep38_asset_identifier s ≡ some p
    → value_of p ≡ s
unfolding parse_sep38_asset_identifier parse_iso4217 parse_stellar parse_at parse_separated
    parse_issued value_of
value_of-parse s p e = ground arith

pub require_record-Ends :
    (value : Option Json) → Ends (λ _. Unit) IsParseError (require_record value)
unfolding require_record
require_record-Ends none = inl refl
require_record-Ends (some (object m)) = tt
require_record-Ends (some _) = inl refl

pub require_string-Ends :
    (value : Option Json) → Ends (λ _. Unit) IsParseError (require_string value)
unfolding require_string
require_string-Ends none = inl refl
require_string-Ends (some (string s)) = elim (Bool-cases (is_blank s)) [
  | inl e ↦ rw e (inl refl)
  | inr e ↦ rw e tt
]
require_string-Ends (some _) = inl refl

pub require_decimal-Ends :
    (value : Option Json) (positive : Bool)
    → Ends (IsDecimal positive) IsParseError (require_decimal value positive)
unfolding require_decimal validate_decimal
require_decimal-Ends none positive = inl refl
require_decimal-Ends (some (string s)) positive =
    Ends->>= (λ _. (not (matches_decimal s) || (positive && matches_zero s)) ≡ false)
      (IsDecimal positive) IsParseError (validate_decimal invalid_data s positive) (λ _. ok s)
      (Ends-throw_if IsParseError _ invalid_data (inl refl)) (λ _ h. ground (arith, h))
require_decimal-Ends (some _) positive = inl refl

pub parse_asset-Ends : (s : Text) → Ends IsAsset IsParseError (parse_asset s)
unfolding parse_asset parse_sep38_asset_identifier strip_prefix
parse_asset-Ends s = elim (Option-cases (parse_sep38_asset_identifier s)) [
  | inl e ↦ rw e (inr (inl refl))
  | inr (p, e) ↦ let same = value_of-parse s p e in rw (e, same) (p, e)
]

-- A reader and what reads on from its value.
pub Reads-then :
    {A B : Type 0} (P : A → Type 0) (Q : B → Type 0) (m : Parsed A) (f : A → Parsed B)
    → Reads P m
    → ((a : A) → P a → Reads Q (f a))
    → Reads Q (m >>= f)
Reads-then P Q m f = Ends->>= P Q IsParseError m f

pub require_asset-Ends : (value : Option Json) → Reads IsAsset (require_asset value)
unfolding require_asset
require_asset-Ends value =
    Reads-then (λ _. Unit) IsAsset _ _ (require_string-Ends value) (λ s _. parse_asset-Ends s)

pub asset_or-Ends :
    (value : Option Json) (default : Text)
    → IsAsset default
    → Reads IsAsset (asset_or value default)
unfolding asset_or
asset_or-Ends none default h = h
asset_or-Ends (some value) default h = require_asset-Ends (some value)

pub optional_string-Ends : (value : Option Json) → Reads (λ _. Unit {0}) (optional_string value)
unfolding optional_string
optional_string-Ends none = tt
optional_string-Ends (some value) =
    Reads-then (λ _. Unit) (λ _. Unit) _ _ (require_string-Ends (some value)) (λ _ _. tt)

abbrev pub IsDetail : Sep38FeeDetail → Type 0
IsDetail d = IsDecimal false d.amount

parse_fee_detail-Ends : (detail : Json) → Reads IsDetail (parse_fee_detail detail)
unfolding parse_fee_detail
parse_fee_detail-Ends detail =
    Reads-then (λ _. Unit) IsDetail _ _ (require_record-Ends (some detail))
      (λ m _.
        Reads-then (λ _. Unit) IsDetail _ _ (require_string-Ends _)
          (λ _ _.
            Reads-then (λ _. Unit) IsDetail _ _ (optional_string-Ends _)
              (λ _ _.
                Reads-then (IsDecimal false) IsDetail _ _ (require_decimal-Ends _ false)
                  (λ _ h. h))))

parse_fee_details-Ends : (value : Option Json) → Reads (All IsDetail) (parse_fee_details value)
unfolding parse_fee_details
parse_fee_details-Ends none = tt
parse_fee_details-Ends (some (array items)) =
    Ends-map_result IsDetail IsParseError parse_fee_detail (items_of items) parse_fee_detail-Ends
parse_fee_details-Ends (some _) = inl refl

pub record IsFee (f : Sep38Fee) : Type 0 where
  pub total_decimal : IsDecimal false f.total
  pub fee_asset : IsAsset f.asset
  pub details_decimal : All IsDetail f.details

pub parse_fee-Ends : (value : Option Json) → Reads IsFee (parse_fee value)
unfolding parse_fee
parse_fee-Ends value =
    Reads-then (λ _. Unit) IsFee _ _ (require_record-Ends value)
      (λ m _. Reads-then (All IsDetail) IsFee _ _ (parse_fee_details-Ends _) (λ ds d.
        Reads-then (IsDecimal false) IsFee _ _ (require_decimal-Ends _ false) (λ t h.
          Reads-then IsAsset IsFee _ _ (require_asset-Ends _)
            (λ a k. record { total_decimal = h; fee_asset = k; details_decimal = d }))))
