-- ===== src/Median.antt =====
-- lib/rates/median.ts: the median of the fresh rates of a corridor. `Median/Accounting` has the
-- theorems on what is included, `Median/Order` those on the median itself.
pub mod Accounting
pub mod Order
mod Tests
use stellar_core.Prelude.{
  ℕ, ◌-◌, ◌/◌, ◌%◌, Bool, true, false, Option, none, some, List, [], ◌∷◌, leb, ◌==◌, if◌then◌else◌,
  length, get_or,
}
use stellar_core.Prelude.Int.{ℤ, Date}
use stellar_core.Prelude.Sort.{sort_by}
use stellar_core.Prelude.Text.{Text}
use stellar_core.Decimal.{
  ExactDecimal, less, compare_decimals, average_decimals, is_zero_decimal, parse_database_decimal,
  format_decimal,
}
use stellar_core.Freshness.{
  Instant, RateFreshnessState, fresh, stale, future, invalid, get_rate_freshness,
}

abbrev pub min_fresh_sources : ℕ
min_fresh_sources = 2

pub record MedianSource : Type 0 where
  pub anchor_slug : Text
  pub corridor_slug : Text
  pub rate : Text
  pub captured_at : Instant

pub data MedianExclusionReason : Type 0 where
  stale_source future_timestamp invalid_timestamp invalid_rate : MedianExclusionReason

-- `{...source, included, exclusionReason?}`.
pub record MedianSourceResult : Type 0 where
  pub source : MedianSource
  pub included : Bool
  pub exclusion_reason : Option MedianExclusionReason

pub data MedianState : Type 0 where
  healthy insufficient_fresh_sources : MedianState

pub record MedianResult : Type 0 where
  pub state : MedianState
  pub median : Option Text
  pub fresh_source_count : ℕ
  pub sources : List MedianSourceResult

-- What the loop body finds out about one source: a reason, or the decimal that it includes.
pub data Verdict : Type 0 where
  exclude : MedianExclusionReason → Verdict
  include : ExactDecimal → Verdict

-- The `try` block: a rate that does not parse and a rate of zero are both invalid.
rate_verdict : Option ExactDecimal → Verdict
rate_verdict none = exclude invalid_rate
rate_verdict (some d) = if is_zero_decimal d then exclude invalid_rate else include d

verdict_of : RateFreshnessState → Text → Verdict
unfolding rate_verdict
verdict_of stale rate = exclude stale_source
verdict_of future rate = exclude future_timestamp
verdict_of invalid rate = exclude invalid_timestamp
verdict_of fresh rate = rate_verdict (parse_database_decimal rate)

result_of : MedianSource → Verdict → MedianSourceResult
result_of s (exclude reason) = record {
  source = s;
  included = false;
  exclusion_reason = some reason;
}
result_of s (include d) = record { source = s; included = true; exclusion_reason = none }

push_decimal : Verdict → List ExactDecimal → List ExactDecimal
push_decimal (exclude reason) ds = ds
push_decimal (include d) ds = d ∷ ds

-- The comparator puts `l` strictly before `r`.
abbrev pub decimal_before : ExactDecimal → ExactDecimal → Bool
decimal_before l r = elim (compare_decimals l r) [ less ↦ true | _ ↦ false ]

abbrev zero_decimal : ExactDecimal
zero_decimal = record { coefficient = 0; scale = 0 }

-- The value under the median, from the sorted decimals. The positions exist where it is called.
unfoldable pub middle_value : List ExactDecimal → ExactDecimal
middle_value ds =
    let middle = length ds / 2 in
    if length ds % 2 == 1
    then get_or ds middle zero_decimal
    else average_decimals (get_or ds (middle - 1) zero_decimal) (get_or ds middle zero_decimal)

module _ (parse_date : Text → Option ℤ) (now : Date) where
  unfoldable pub judge : MedianSource → Verdict
  unfolding verdict_of
  judge s = verdict_of (get_rate_freshness parse_date s.captured_at now).state s.rate

  unfoldable pub source_results : List MedianSource → List MedianSourceResult
  unfolding result_of
  source_results [] = []
  source_results (s ∷ ss) = result_of s (judge s) ∷ source_results ss

  unfoldable pub included_decimals : List MedianSource → List ExactDecimal
  unfolding push_decimal
  included_decimals [] = []
  included_decimals (s ∷ ss) = push_decimal (judge s) (included_decimals ss)

  unfoldable pub sorted_decimals : List MedianSource → List ExactDecimal
  sorted_decimals ss = sort_by decimal_before (included_decimals ss)

  unfoldable pub compute_fresh_median : List MedianSource → MedianResult
  compute_fresh_median ss =
      let sorted = sorted_decimals ss in
      let enough = leb min_fresh_sources (length sorted) in
      record {
        state = if enough then healthy else insufficient_fresh_sources;
        median = if enough then some (format_decimal (middle_value sorted)) else none;
        fresh_source_count = length sorted;
        sources = source_results ss;
      }
