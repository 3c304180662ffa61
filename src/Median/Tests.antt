-- ===== src/Median/Tests.antt =====
-- Runs of the median.
use stellar_core.Prelude.{
  ◌*◌, ◌≤◌, ◌≡◌, refl, ◌↔◌, Option, none, some, List, [], ◌∷◌, arith, length,
}
use stellar_core.Prelude.Int.{ℤ, pos, ◌-ℤ◌, ◌≤ℤ◌, Date, at, get_time}
use stellar_core.Prelude.Predicates.{count_by}
use stellar_core.Prelude.Sort.{sort_by}
use stellar_core.Prelude.Text.{Text, codes, text_eq, all_digits}
use Prim.Native.String.{String}
use stellar_core.Decimal.{
  ExactDecimal, power_of_ten, normalize_decimal, scaled, compare_decimals, average_decimals,
  is_zero_decimal, split_point, matches_decimal, digits_value, parse_database_decimal, to_string,
  pad_start, format_decimal,
}
use stellar_core.Freshness.{
  rate_freshness_threshold_ms, of_date, fresh, get_rate_freshness, get_rate_freshness-fresh_iff,
}
use stellar_core.Median.{
  MedianSource, decimal_before, middle_value, judge, included_decimals, sorted_decimals,
  compute_fresh_median,
}
use stellar_core.Median.Order.{median_splits}

abbrev no_dates : Text → Option ℤ
no_dates t = none

abbrev clock : Date
clock = at (pos 1000000)

abbrev priced : String → MedianSource
priced rate = record {
  anchor_slug = codes "zeam";
  corridor_slug = codes "usdc-us-brl-br";
  rate = codes rate;
  captured_at = of_date (at (pos 950000));
}

abbrev seven : ExactDecimal
seven = record { coefficient = 7; scale = 0 }

abbrev quotes : List MedianSource
quotes = priced "5.2" ∷ priced "5.10" ∷ priced "0" ∷ priced "x" ∷ []

quotes_median : (compute_fresh_median no_dates clock quotes).median ≡ some (codes "5.15")
unfolding compute_fresh_median sorted_decimals included_decimals judge get_rate_freshness
    parse_database_decimal format_decimal matches_decimal split_point text_eq all_digits
    digits_value normalize_decimal to_string pad_start middle_value sort_by compare_decimals scaled
    power_of_ten average_decimals is_zero_decimal ◌-ℤ◌
quotes_median = refl

median_splits_example :
    (m : ExactDecimal) × ((compute_fresh_median no_dates clock quotes).median
      ≡ some (format_decimal m))
    × (2 * count_by (λ d. decimal_before d m) (included_decimals no_dates clock quotes)
        ≤ length (included_decimals no_dates clock quotes))
    × (2 * count_by (λ d. decimal_before m d) (included_decimals no_dates clock quotes)
        ≤ length (included_decimals no_dates clock quotes))
unfolding included_decimals judge get_rate_freshness parse_database_decimal matches_decimal
    split_point text_eq all_digits digits_value normalize_decimal is_zero_decimal ◌-ℤ◌
median_splits_example = median_splits no_dates clock quotes (omega arith)

get_rate_freshness-fresh_iff_example :
    ((get_rate_freshness no_dates (of_date (at (pos 950000))) clock).state ≡ fresh) ↔ (
      (c : ℤ) × (n : ℤ) × (get_time (at (pos 950000)) ≡ some c)
      × (get_time clock ≡ some n)
      × (c ≤ℤ n)
      × (n -ℤ c ≤ℤ pos rate_freshness_threshold_ms))
get_rate_freshness-fresh_iff_example =
    get_rate_freshness-fresh_iff no_dates (of_date (at (pos 950000))) clock
