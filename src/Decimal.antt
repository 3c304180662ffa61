-- ===== src/Decimal.antt =====
-- lib/rates/decimal.ts: exact decimals, a coefficient and a scale. `Decimal/Value` has their
-- meaning and `Decimal/Arithmetic` the theorems on the operations.
pub mod Value
pub mod Arithmetic
mod Tests
use stellar_core.Prelude.{
  ℕ, zero, suc, ◌+◌, ◌-◌, ◌*◌, ◌/◌, ◌%◌, max, Bool, true, false, not, ◌&&◌, ◌||◌, Option, none,
  some, [], ◌∷◌, ◌++◌, ltb, leb, ◌==◌, if◌then◌else◌, length, take, drop, replicate,
}
use stellar_core.Prelude.Text.{Text, text_eq, all_digits}

abbrev pub max_precision : ℕ
max_precision = 38

abbrev pub max_scale : ℕ
max_scale = 18

abbrev pub max_integer_digits : ℕ
max_integer_digits = max_precision - max_scale

-- A `bigint` is a natural number here: no decimal that the program parses or computes is negative,
-- but for the result of `subtractDecimals`, which is a ℤ.
pub record ExactDecimal : Type 0 where
  pub coefficient : ℕ
  pub scale : ℕ

-- The loop of `powerOfTen`, from the last round to the first.
unfoldable pub power_of_ten : ℕ → ℕ
power_of_ten zero = 1
power_of_ten (suc n) = power_of_ten n * 10

-- The loop of `normalizeDecimal`, which ends at scale 0 at the latest.
normalize_loop : ℕ → ℕ → ExactDecimal
normalize_loop c zero = record { coefficient = c; scale = 0 }
normalize_loop c (suc s) =
    let rest = normalize_loop (c / 10) s in
    if c % 10 == 0 then rest else record { coefficient = c; scale = suc s }

unfoldable pub normalize_decimal : ExactDecimal → ExactDecimal
unfolding normalize_loop
normalize_decimal d = normalize_loop d.coefficient d.scale

-- `coefficient * powerOfTen(scale - value.scale)`.
unfoldable pub scaled : ExactDecimal → ℕ → ℕ
scaled d scale = d.coefficient * power_of_ten (scale - d.scale)

pub data Comparison : Type 0 where
  less equal greater : Comparison

unfoldable pub compare_decimals : ExactDecimal → ExactDecimal → Comparison
compare_decimals l r =
    let scale = max l.scale r.scale in
    if ltb (scaled l scale) (scaled r scale)
    then less
    else if ltb (scaled r scale) (scaled l scale)
    then greater
    else equal

unfoldable pub average_decimals : ExactDecimal → ExactDecimal → ExactDecimal
average_decimals l r =
    let scale = max l.scale r.scale in
    let sum = scaled l scale + scaled r scale in
    if sum % 2 == 0
    then normalize_decimal (record { coefficient = sum / 2; scale = scale })
    else normalize_decimal (record { coefficient = sum * 5; scale = scale + 1 })

unfoldable pub is_zero_decimal : ExactDecimal → Bool
is_zero_decimal d = d.coefficient == 0

unfoldable pub add_decimals : ExactDecimal → ExactDecimal → ExactDecimal
add_decimals l r =
    let scale = max l.scale r.scale in
    normalize_decimal (record { coefficient = scaled l scale + scaled r scale; scale = scale })

unfoldable pub multiply_decimals : ExactDecimal → ExactDecimal → ExactDecimal
multiply_decimals l r =
    normalize_decimal
      (record { coefficient = l.coefficient * r.coefficient; scale = l.scale + r.scale })

unfoldable pub abs_decimal_diff : ExactDecimal → ExactDecimal → ExactDecimal
abs_decimal_diff l r =
    let scale = max l.scale r.scale in
    let ls = scaled l scale in
    let rs = scaled r scale in
    normalize_decimal
      (record { coefficient = if leb rs ls then ls - rs else rs - ls; scale = scale })

unfoldable pub one_ulp : ℕ → ExactDecimal
one_ulp scale = normalize_decimal (record { coefficient = 1; scale = scale })

unfoldable pub max_decimal : ExactDecimal → ExactDecimal → ExactDecimal
max_decimal l r = elim (compare_decimals l r) [ less ↦ r | _ ↦ l ]

-- The pattern `^(?:0|[1-9]\d*)(?:\.\d+)?$`: the integer part is read up to a point.
has_integer_form : Text → Bool
has_integer_form [] = false
has_integer_form (c ∷ s) =
    if c == b'0' then text_eq s [] else (leb b'1' c && leb c b'9') && all_digits s

-- `value.split(".")` at its first point: the part before it, and the part after, if it is there.
unfoldable pub split_point : Text → Text × Option Text
split_point [] = ([], none)
split_point (c ∷ s) =
    let (before, after) = split_point s in if c == b'.' then ([], some s) else (c ∷ before, after)

has_fraction_form : Option Text → Bool
has_fraction_form none = true
has_fraction_form (some []) = false
has_fraction_form (some (c ∷ s)) = all_digits (c ∷ s)

unfoldable pub matches_decimal : Text → Bool
unfolding has_integer_form has_fraction_form
matches_decimal value =
    let (integer, fraction) = split_point value in
    has_integer_form integer && has_fraction_form fraction

-- `BigInt(digits)`.
unfoldable pub digits_value : ℕ → Text → ℕ
digits_value n [] = n
digits_value n (c ∷ s) = digits_value (n * 10 + (c - b'0')) s

abbrev pub fraction_or_empty : Option Text → Text
fraction_or_empty none = []
fraction_or_empty (some f) = f

-- `none` is a `DecimalValidationError`.
unfoldable pub parse_database_decimal : Text → Option ExactDecimal
parse_database_decimal value =
    if not (matches_decimal value)
    then none
    else let integer = (split_point value).0 in
      let fraction = fraction_or_empty (split_point value).1 in
      if ltb max_scale (length fraction) || ltb max_integer_digits (length integer)
      then none
      else let digits = integer ++ fraction in
        if ltb max_precision (length digits)
        then none
        else some (
            normalize_decimal
              (record { coefficient = digits_value 0 digits; scale = length fraction }))

-- `BigInt.prototype.toString`, the last digit found first. The fuel bounds the digits left.
decimal_digits : ℕ → ℕ → Text
decimal_digits zero n = []
decimal_digits (suc fuel) n =
    let longer = decimal_digits fuel (n / 10) ++ (b'0' + n % 10) ∷ [] in
    if ltb n 10 then (b'0' + n) ∷ [] else longer

-- A number n has at most n + 1 digits.
unfoldable pub to_string : ℕ → Text
unfolding decimal_digits
to_string n = decimal_digits (suc n) n

-- `digits.padStart(width, "0")`.
unfoldable pub pad_start : Text → ℕ → Text
pad_start digits width = replicate (width - length digits) b'0' ++ digits

unfoldable pub format_decimal : ExactDecimal → Text
format_decimal value =
    let normalized = normalize_decimal value in
    let digits = to_string normalized.coefficient in
    let padded = pad_start digits (normalized.scale + 1) in
    let split = length padded - normalized.scale in
    if normalized.scale == 0 then digits else take split padded ++ b'.' ∷ drop split padded
