-- ===== src/Median/Accounting.antt =====
-- lib/rates/median.ts: which sources are included, and why the others are not.
use stellar_core.Prelude.{
  ◌≡◌, refl, Bool, Option, List, [], ◌∷◌, length, ◌+◌, ◌≤◌, ◌<◌, ◌∙◌, ◌≢◌, ◌↔◌, none, some, arith,
  if◌then◌else◌,
}
use stellar_core.Prelude.Int.{ℤ, Date}
use stellar_core.Prelude.Predicates.{count_by}
use stellar_core.Prelude.Sort.{length-sort_by}
use stellar_core.Prelude.Text.{Text}
use mathlib.Core.Path.{ap₂}
use stellar_core.Decimal.{ExactDecimal, is_zero_decimal, parse_database_decimal}
use stellar_core.Freshness.{fresh, get_rate_freshness}
use stellar_core.Median.{
  MedianSource, MedianSourceResult, judge, source_results, included_decimals, healthy, Verdict,
  exclude, include, decimal_before, sorted_decimals, compute_fresh_median, result_of, push_decimal,
}

-- The sources of the results.
abbrev pub sources_of : List MedianSourceResult → List MedianSource
sources_of [] = []
sources_of (r ∷ rs) = r.source ∷ sources_of rs

abbrev pub is_included : MedianSourceResult → Bool
is_included r = r.included

result_of-source : (s : MedianSource) (v : Verdict) → (result_of s v).source ≡ s
unfolding result_of
result_of-source s v = ground arith

length-push_decimal :
    (s : MedianSource) (v : Verdict) (ds : List ExactDecimal)
    → length (push_decimal v ds) ≡ (if is_included (result_of s v) then 1 else 0) + length ds
unfolding result_of push_decimal
length-push_decimal s (exclude reason) ds = omega arith
length-push_decimal s (include d) ds = omega arith

module _ (parse_date : Text → Option ℤ) (now : Date) where
  source_results-sources :
      (ss : List MedianSource) → sources_of (source_results parse_date now ss) ≡ ss
  unfolding source_results
  source_results-sources [] = refl
  source_results-sources (s ∷ ss) =
      ap₂ ◌∷◌ (result_of-source s (judge parse_date now s)) (source_results-sources ss)

  length-included :
      (ss : List MedianSource)
      → length (included_decimals parse_date now ss)
        ≡ count_by is_included (source_results parse_date now ss)
  unfolding source_results included_decimals
  length-included [] = refl
  length-included (s ∷ ss) = omega (
    arith,
    length-push_decimal s (judge parse_date now s) (included_decimals parse_date now ss),
    length-included ss,
  )

-- The results list every source once, in the given order; the fresh source count is the number of
-- results marked as included; and the state is healthy, with a median, exactly when it is 2 or more.
pub median_accounts :
    (parse_date : Text → Option ℤ) (now : Date) (ss : List MedianSource)
    → let r = compute_fresh_median parse_date now ss in
      (sources_of r.sources ≡ ss)
      × (r.fresh_source_count ≡ count_by is_included r.sources)
      × ((r.state ≡ healthy) ↔ (2 ≤ r.fresh_source_count))
      × ((r.median ≡ none) ↔ (r.fresh_source_count < 2))
unfolding compute_fresh_median sorted_decimals
median_accounts parse_date now ss =
    let same = length-sort_by decimal_before (included_decimals parse_date now ss) in
    (
      source_results-sources parse_date now ss,
      same ∙ length-included parse_date now ss,
      ground arith,
      ground arith,
    )

-- A source is included with the decimal d exactly when its capture is fresh, its rate parses to d, and
-- d is not zero.
pub judge-include :
    (parse_date : Text → Option ℤ) (now : Date) (s : MedianSource) (d : ExactDecimal)
    → (judge parse_date now s ≡ include d) ↔ (
        ((get_rate_freshness parse_date s.captured_at now).state ≡ fresh)
        × (parse_database_decimal s.rate ≡ some d)
        × (d.coefficient ≢ 0))
unfolding judge is_zero_decimal
judge-include parse_date now s d = ground arith
