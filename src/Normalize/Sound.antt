-- ===== src/Normalize/Sound.antt =====
-- lib/rates/normalize.ts: what the tests of a quote establish, and the codes that they throw.
use stellar_core.Prelude.{
  ◌*◌, ◌≡◌, refl, ◌⊎◌, inl, inr, Bool, true, false, ◌&&◌, some, [], Option-cases, arith, ap, ◌∙◌, ℕ,
  ◌≢◌, ◌∷◌, ◌==◌, ==_iff, Bool-cases,
}
use stellar_core.Prelude.Result.{
  ok, Ends, Ends-guard, ◌>>◌, throw_if, or_throw, Ends->>=, Ends-or_throw, ◌>>=◌,
}
use stellar_core.Prelude.Text.{Text, text_eq_iff}
use mathlib.Core.Path.{subst}
use native.Mathlib.Decide.{dec_lt}
use stellar_core.Asset.{code_of}
use stellar_core.Asset.Identifier.{parse_sep38_asset_identifier}
use stellar_core.Decimal.{
  ExactDecimal, power_of_ten, is_zero_decimal, parse_database_decimal, one_ulp, max_decimal,
  split_point,
}
use stellar_core.Decimal.Arithmetic.{compare_decimals_iff}
use stellar_core.Decimal.Value.{SameValue, normalize_decimal-SameValue}
use stellar_core.Normalize.{parse_and_require_decimal, has_code, Normalized, decimal_scale}
use stellar_core.Normalize.Arithmetic.{exceeds, differs}
use stellar_core.Normalize.Observed.{
  IsAtMost, Denotes, IsPermanentCode, HasCode, HasPlaces, IsWithin,
}
use stellar_core.Suppression.{
  permanent_protocol, FailureCode, asset_mismatch, arithmetic_inconsistency,
  classify_permanent_scheduled_failure, permanent_configuration, invalid_anchor, invalid_corridor,
  invalid_rate, invalid_source_amount, invalid_destination_amount, invalid_fee,
  unsupported_fee_asset, invalid_timestamp,
}

pub exceeds-IsAtMost : (l r : ExactDecimal) → exceeds l r ≡ false → IsAtMost l r
unfolding exceeds
exceeds-IsAtMost l r e =
    elim (dec_lt (r.coefficient * power_of_ten l.scale) (l.coefficient * power_of_ten r.scale)) [
      | yes above ↦ absurd (ground (arith, e, (compare_decimals_iff l r).2.1 above))
      | no at_most ↦ omega (arith, at_most)
    ]

pub decimal_scale-HasPlaces : (s : Text) → HasPlaces s (decimal_scale s)
unfolding decimal_scale split_point
decimal_scale-HasPlaces [] = inl (tt, refl)
decimal_scale-HasPlaces (c ∷ s) = elim (Bool-cases (c == b'.')) [
  | inl e ↦ rw e (inr ([], s, ap (λ x. x ∷ s) ((==_iff c b'.').0 e), tt, refl))
  | inr e ↦
      let other : c ≢ b'.' = ground (arith, e) in
      elim (decimal_scale-HasPlaces s) [
        | inl (all, z) ↦ rw e (inl ((other, all), z))
        | inr (before, after, eq, all, n) ↦
            rw e (inr (c ∷ before, after, ap (λ x. c ∷ x) eq, (other, all), n))
      ]
]

pub one_ulp-SameValue : (n : ℕ) → SameValue (one_ulp n) (record { coefficient = 1; scale = n })
unfolding one_ulp
one_ulp-SameValue n = normalize_decimal-SameValue (record { coefficient = 1; scale = n })

max_decimal-cases : (l r : ExactDecimal) → (max_decimal l r ≡ l) ⊎ (max_decimal l r ≡ r)
unfolding max_decimal
max_decimal-cases l r = ground arith

pub max_decimal-IsWithin :
    (f : ExactDecimal → ExactDecimal) (e l r : ExactDecimal)
    → IsAtMost e (f (max_decimal l r))
    → IsWithin e (f l) (f r)
max_decimal-IsWithin f e l r h = elim (max_decimal-cases l r) [
  | inl same ↦ inl (subst (λ d. IsAtMost e (f d)) same h)
  | inr same ↦ inr (subst (λ d. IsAtMost e (f d)) same h)
]

pub differs-SameValue : (l r : ExactDecimal) → differs l r ≡ false → SameValue l r
unfolding differs
differs-SameValue l r e = (compare_decimals_iff l r).1.0 (ground (arith, e))

pub has_code-HasCode : (asset code : Text) → has_code asset code ≡ true → HasCode asset code
unfolding has_code
has_code-HasCode asset code e = elim (Option-cases (parse_sep38_asset_identifier asset)) [
  | inl n ↦ ground (arith, e, n)
  | inr (p, h) ↦ elim (Option-cases (code_of p)) [
    | inl n ↦ ground (arith, e, h, n)
    | inr (c, g) ↦ (p, h, g ∙ ap some ((text_eq_iff c code).0 (ground (arith, e, h, g))))
  ]
]

-- The codes that normalization throws.
pub permanent_asset : IsPermanentCode asset_mismatch
unfolding classify_permanent_scheduled_failure
permanent_asset = (permanent_protocol, refl)

pub permanent_rate : IsPermanentCode invalid_rate
unfolding classify_permanent_scheduled_failure
permanent_rate = (permanent_protocol, refl)

pub permanent_source : IsPermanentCode invalid_source_amount
unfolding classify_permanent_scheduled_failure
permanent_source = (permanent_protocol, refl)

pub permanent_destination : IsPermanentCode invalid_destination_amount
unfolding classify_permanent_scheduled_failure
permanent_destination = (permanent_protocol, refl)

pub permanent_fee : IsPermanentCode invalid_fee
unfolding classify_permanent_scheduled_failure
permanent_fee = (permanent_protocol, refl)

pub permanent_fee_asset : IsPermanentCode unsupported_fee_asset
unfolding classify_permanent_scheduled_failure
permanent_fee_asset = (permanent_protocol, refl)

pub permanent_timestamp : IsPermanentCode invalid_timestamp
unfolding classify_permanent_scheduled_failure
permanent_timestamp = (permanent_protocol, refl)

pub permanent_anchor : IsPermanentCode invalid_anchor
unfolding classify_permanent_scheduled_failure
permanent_anchor = (permanent_configuration, refl)

pub permanent_corridor : IsPermanentCode invalid_corridor
unfolding classify_permanent_scheduled_failure
permanent_corridor = (permanent_configuration, refl)

pub permanent_arithmetic : IsPermanentCode arithmetic_inconsistency
unfolding classify_permanent_scheduled_failure
permanent_arithmetic = (permanent_protocol, refl)

parse_and_require_decimal-Ends :
    (value : Text) (positive : Bool) (code : FailureCode)
    → IsPermanentCode code
    → Ends (Denotes value positive) IsPermanentCode (parse_and_require_decimal value positive code)
unfolding parse_and_require_decimal
parse_and_require_decimal-Ends value positive code h =
    Ends->>= (λ d. parse_database_decimal value ≡ some d) (Denotes value positive) IsPermanentCode
      (or_throw (parse_database_decimal value) code) _
      (Ends-or_throw IsPermanentCode (parse_database_decimal value) code h)
      (λ d e.
        Ends-guard (Denotes value positive) IsPermanentCode (positive && is_zero_decimal d) code
          (ok d) h (λ z. (e, z)))

pub read_then :
    {B : Type 0} (value : Text) (positive : Bool) (code : FailureCode) (Q : B → Type 0)
    (f : ExactDecimal → Normalized B)
    → IsPermanentCode code
    → ((d : ExactDecimal) → Denotes value positive d → Ends Q IsPermanentCode (f d))
    → Ends Q IsPermanentCode (parse_and_require_decimal value positive code >>= f)
read_then value positive code Q f h k =
    Ends->>= (Denotes value positive) Q IsPermanentCode _ f
      (parse_and_require_decimal-Ends value positive code h) k

-- A test that throws a permanent code, and what follows.
pub test_then :
    {B : Type 0} (Q : B → Type 0) (b : Bool) (code : FailureCode) (k : Normalized B)
    → IsPermanentCode code
    → (b ≡ false → Ends Q IsPermanentCode k)
    → Ends Q IsPermanentCode (throw_if b code >> k)
test_then Q b code k h l = Ends-guard Q IsPermanentCode b code k h l
