-- ===== src/Score/Metrics.antt =====
-- lib/reputation/score.ts: `calculateMetrics`, `successRatio` and `percentile`. What the code asks
-- of a JavaScript number here is the parameters `is_finite` and `less`. The product of the
-- percentile and the length is exact.
use stellar_core.Prelude.{
  ℕ, ◌+◌, ◌-◌, ◌*◌, ◌/◌, Bool, false, Option, none, some, List, [], ◌∷◌, map, length, get_elem?,
}
use stellar_core.Prelude.Int.{ℤ, pos, ◌-ℤ◌, leb_ℤ}
use stellar_core.Prelude.Predicates.{filter_by}
use stellar_core.Prelude.Sort.{sort_by}
use stellar_core.Prelude.Text.{Text}
use stellar_core.Freshness.{instant_time}
use stellar_core.Score.{
  TransferOutcome, ReputationMetrics, reputation_metrics_window_days, ratio_basis_points,
  is_completed,
}

-- `24 * 60 * 60 * 1_000`.
abbrev days_to_ms : ℕ
days_to_ms = 86400000

unfoldable pub success_ratio : {N : Type 0} → List (TransferOutcome N) → Option ℕ
success_ratio [] = none
success_ratio (o ∷ outcomes) =
    some
      (ratio_basis_points (length (filter_by is_completed (o ∷ outcomes))) (length (o ∷ outcomes)))

module _ {N : Type 0} (is_finite : N → Bool) (less : N → N → Bool) where
  -- `Math.ceil((percentileValue / 100) * length) - 1`, at least 0.
  unfoldable pub percentile_index : ℕ → ℕ → ℕ
  percentile_index percentile_value count = (percentile_value * count + 99) / 100 - 1

  unfoldable pub percentile : List N → ℕ → Option N
  unfolding percentile_index
  percentile values percentile_value =
      let valid = sort_by less (filter_by is_finite values) in
      get_elem? valid (percentile_index percentile_value (length valid))

module _ {N : Type 0} (parse_date : Text → Option ℤ) where
  -- `(timestamp(recordedAt) ?? -Infinity) >= start`.
  recorded_from : ℤ → TransferOutcome N → Bool
  recorded_from start o = elim (instant_time parse_date o.recorded_at) [
    | none ↦ false
    | some t ↦ leb_ℤ start t
  ]

  unfoldable pub in_window : ℤ → List (TransferOutcome N) → List (TransferOutcome N)
  unfolding recorded_from
  in_window start outcomes = filter_by (recorded_from start) outcomes

module _ {N : Type 0} (parse_date : Text → Option ℤ) (is_finite : N → Bool)
    (less : N → N → Bool) where
  unfoldable pub calculate_metrics : List (TransferOutcome N) → ℤ → ReputationMetrics N
  calculate_metrics outcomes evaluated_ms =
      let seven_day_start = evaluated_ms -ℤ pos (7 * days_to_ms) in
      let thirty_day_start = evaluated_ms -ℤ pos (reputation_metrics_window_days * days_to_ms) in
      let thirty_days = in_window parse_date thirty_day_start outcomes in
      let thirty_day_completed = filter_by is_completed thirty_days in
      let settlements = map (λ o. o.settlement_ms) thirty_day_completed in
      let slippages = map (λ o. o.slippage) thirty_day_completed in
      record {
        fill_rate_7d = success_ratio (in_window parse_date seven_day_start outcomes);
        fill_rate_30d = success_ratio thirty_days;
        fill_rate_90d = success_ratio outcomes;
        settle_p50_ms = percentile is_finite less settlements 50;
        settle_p95_ms = percentile is_finite less settlements 95;
        slippage_p50 = percentile is_finite less slippages 50;
        slippage_p95 = percentile is_finite less slippages 95;
      }
