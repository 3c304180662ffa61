-- ===== src/Score/Tests.antt =====
-- Runs of the reputation score, with integers for the measured numbers and the order of code units
-- for that of the locale.
use stellar_core.Prelude.{ℕ, ◌≡◌, refl, Bool, true, Option, none, some, [], ◌∷◌, replicate}
use stellar_core.Prelude.Int.{ℤ, pos, ◌-ℤ◌, ltb_ℤ, at}
use stellar_core.Prelude.Sort.{sort_by}
use stellar_core.Prelude.Text.{set_has, to_set, Text, codes, text_eq, text_lt}
use stellar_core.Freshness.{of_date, get_rate_freshness}
use stellar_core.Score.{
  degraded, completed, LatestRate, TransferOutcome, ReputationEvidence, ReputationCalculation,
  round_div, is_completed,
}
use stellar_core.Score.Calculate.{
  weighted_score, is_fresh, outcomes_of, latest_rates_of, counts_of, calculate_reputation,
}
use stellar_core.Score.Latest.{
  later, is_later, keep_latest, latest_entries, select_latest_per_corridor,
}
use stellar_core.Score.Metrics.{percentile_index, percentile}
use stellar_core.Score.Range.{
  IsInRange, IsPublication, calculate_reputation-IsInRange, calculate_reputation-IsPublication,
}

abbrev no_dates : Text → Option ℤ
no_dates t = none

abbrev always : ℤ → Bool
always x = true

abbrev outcome : TransferOutcome ℤ
outcome = record {
  status = completed;
  settlement_ms = pos 900;
  slippage = pos 0;
  recorded_at = of_date (at (pos 1000));
}

abbrev rate_at : ℕ → LatestRate
rate_at t = record { corridor_slug = codes "usdc-us-brl-br"; captured_at = of_date (at (pos t)) }

abbrev evidence_of : ℕ → ReputationEvidence ℤ
evidence_of outcomes = record {
  anchor_slug = codes "zeam";
  status = degraded;
  corridor_slugs = codes "usdc-us-brl-br" ∷ codes "usdc-us-mxn-mx" ∷ [];
  latest_rates = rate_at 500 ∷ rate_at 199000 ∷ rate_at 600 ∷ [];
  transfer_outcomes = replicate outcomes outcome;
}

-- 50 of 100 for the availability, all rates fresh, one of two corridors covered, all completed.
scores_test : counts_of no_dates text_lt (evidence_of 2) (pos 200000) ≡ (record {
  corridor_count = 2;
  latest_rate_count = 1;
  fresh_rate_count = 1;
  outcome_count = 2;
  completed_outcome_count = 2;
  minimum_outcome_count = 30;
})
unfolding counts_of latest_rates_of select_latest_per_corridor latest_entries keep_latest is_later
    later outcomes_of is_fresh get_rate_freshness is_completed to_set set_has text_eq text_lt
    sort_by ◌-ℤ◌
scores_test = refl

weighted_score_test : weighted_score 5000 10000 5000 10000 ≡ 83
unfolding weighted_score round_div
weighted_score_test = refl

percentile_test : percentile always ltb_ℤ (pos 3 ∷ pos 1 ∷ pos 2 ∷ []) 50 ≡ some (pos 2)
unfolding percentile percentile_index sort_by
percentile_test = refl

calculate_reputation-IsInRange_example :
    (c : ReputationCalculation ℤ) × (calculate_reputation no_dates text_lt always ltb_ℤ
        (evidence_of 30)
        (at (pos 200000))
      ≡ some c)
    × IsInRange c
calculate_reputation-IsInRange_example =
    calculate_reputation-IsInRange no_dates text_lt always ltb_ℤ (evidence_of 30) (pos 200000)

calculate_reputation-IsPublication_example :
    (c : ReputationCalculation ℤ) × (calculate_reputation no_dates text_lt always ltb_ℤ
        (evidence_of 30)
        (at (pos 200000))
      ≡ some c)
    × IsPublication no_dates (evidence_of 30) (pos 200000) c
calculate_reputation-IsPublication_example =
    calculate_reputation-IsPublication no_dates text_lt always ltb_ℤ (evidence_of 30) (pos 200000)
