-- ===== src/Decimal/Tests.antt =====
-- Runs of the decimal operations.
use mathlib.Core.Option
use stellar_core.Prelude.{◌*◌, ◌≡◌, refl, ◌↔◌, none, some}
use stellar_core.Prelude.Text.{codes, text_eq, all_digits}
use stellar_core.Decimal.{
  ExactDecimal, power_of_ten, normalize_decimal, less, equal, greater, compare_decimals,
  average_decimals, add_decimals, multiply_decimals, abs_decimal_diff, split_point, matches_decimal,
  digits_value, parse_database_decimal, to_string, pad_start, format_decimal,
}
use stellar_core.Decimal.Arithmetic.{
  IsBelow, cross_sum, cross_diff, compare_decimals_iff, decimal_operations_exact,
}
use stellar_core.Decimal.Value.{HasValue, SameValue, IsNormal, normalize_decimal-canonical}

abbrev half : ExactDecimal
half = record { coefficient = 50; scale = 2 }

abbrev third : ExactDecimal
third = record { coefficient = 333; scale = 3 }

parse_and_print :
    Option.map format_decimal (parse_database_decimal (codes "12.3400")) ≡ some (codes "12.34")
unfolding parse_database_decimal format_decimal matches_decimal split_point text_eq all_digits
    digits_value normalize_decimal to_string pad_start
parse_and_print = refl

parse_refuses :
    (parse_database_decimal (codes "012") ≡ none) × (parse_database_decimal (codes "1.") ≡ none)
unfolding parse_database_decimal matches_decimal split_point text_eq all_digits
parse_refuses = (refl, refl)

normalize_decimal-canonical_example :
    SameValue (normalize_decimal half) half
    × IsNormal (normalize_decimal half)
    × ((normalize_decimal half ≡ normalize_decimal third) ↔ SameValue half third)
normalize_decimal-canonical_example = normalize_decimal-canonical half third

compare_decimals_iff_example :
    ((compare_decimals half third ≡ less) ↔ IsBelow half third)
    × ((compare_decimals half third ≡ equal) ↔ SameValue half third)
    × ((compare_decimals half third ≡ greater) ↔ IsBelow third half)
compare_decimals_iff_example = compare_decimals_iff half third

decimal_operations_exact_example :
    HasValue (add_decimals half third) (cross_sum half third) 5
    × HasValue (multiply_decimals half third) 16650 5
    × HasValue (abs_decimal_diff half third) (cross_diff half third) 5
    × (2 * (average_decimals half third).coefficient * power_of_ten 5
        ≡ cross_sum half third * power_of_ten (average_decimals half third).scale)
decimal_operations_exact_example = decimal_operations_exact half third
