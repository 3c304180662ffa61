-- ===== src/Score/Calculate.antt =====
-- lib/reputation/score.ts: `calculateReputation`. `none` is its thrown error.
use stellar_core.Prelude.{
  ℕ, ◌+◌, ◌*◌, Bool, true, false, ◌&&◌, Option, none, some, List, ltb, leb, if◌then◌else◌, length,
}
use stellar_core.Prelude.Int.{ℤ, leb_ℤ, Date, at, invalid_date}
use stellar_core.Prelude.Predicates.{filter_by}
use stellar_core.Prelude.Text.{set_has, to_set, Text}
use stellar_core.Freshness.{fresh, instant_time, get_rate_freshness}
use stellar_core.Score.{
  ReputationAnchorStatus, LatestRate, TransferOutcome, ReputationEvidence, Components,
  EvidenceCounts, insufficient_evidence, established, ScoreBand, ReputationCalculation,
  min_reputation_outcomes, availability_weight, rate_freshness_weight, coverage_weight,
  transfer_reliability_weight, basis_points, availability_score, round_div, ratio_basis_points,
  component, score_band_of, is_completed,
}
use stellar_core.Score.Latest.{select_latest_per_corridor}
use stellar_core.Score.Metrics.{calculate_metrics}

unfoldable pub weighted_score : ℕ → ℕ → ℕ → ℕ → ℕ
unfolding round_div
weighted_score availability freshness coverage reliability =
    round_div
      (availability * availability_weight
        + freshness * rate_freshness_weight
        + coverage * coverage_weight
        + reliability * transfer_reliability_weight)
      basis_points

-- The four basis points that the score is made of.
pub record Scores : Type 0 where
  pub availability : ℕ
  pub freshness : ℕ
  pub coverage : ℕ
  pub reliability : ℕ

unfoldable pub scores_of : ReputationAnchorStatus → EvidenceCounts → Scores
scores_of status e = record {
  availability = availability_score status * 100;
  freshness = ratio_basis_points e.fresh_rate_count e.latest_rate_count;
  coverage = ratio_basis_points e.fresh_rate_count e.corridor_count;
  reliability = ratio_basis_points e.completed_outcome_count e.outcome_count;
}

unfoldable pub components_of : Scores → Components
components_of s = record {
  availability = component availability_weight s.availability;
  rate_freshness = component rate_freshness_weight s.freshness;
  coverage = component coverage_weight s.coverage;
  transfer_reliability = component transfer_reliability_weight s.reliability;
}

unfoldable pub is_established : EvidenceCounts → Bool
is_established e =
    leb min_reputation_outcomes e.outcome_count
    && (ltb 0 e.corridor_count && ltb 0 e.latest_rate_count)

-- `score` and `scoreBand`.
unfoldable pub score_of : EvidenceCounts → Scores → Option ℕ
unfolding is_established
score_of e s =
    if is_established e
    then some (weighted_score s.availability s.freshness s.coverage s.reliability)
    else none

unfoldable pub band_of : Option ℕ → Option ScoreBand
band_of none = none
band_of (some score) = some (score_band_of score)

unfoldable pub is_fresh : (Text → Option ℤ) → Date → LatestRate → Bool
is_fresh parse_date evaluated_at rate =
    elim (get_rate_freshness parse_date rate.captured_at evaluated_at).state [
      | fresh ↦ true
      | _ ↦ false
    ]

module _ {N : Type 0} (parse_date : Text → Option ℤ) where
  -- `recordedAt` is not later than the evaluation.
  recorded_by : ℤ → TransferOutcome N → Bool
  recorded_by evaluated_ms o = elim (instant_time parse_date o.recorded_at) [
    | none ↦ false
    | some t ↦ leb_ℤ t evaluated_ms
  ]

  unfoldable pub outcomes_of : ReputationEvidence N → ℤ → List (TransferOutcome N)
  unfolding recorded_by
  outcomes_of input evaluated_ms = filter_by (recorded_by evaluated_ms) input.transfer_outcomes

module _ {N : Type 0} (parse_date : Text → Option ℤ) (locale_before : Text → Text → Bool) where
  unfoldable pub latest_rates_of : ReputationEvidence N → List LatestRate
  latest_rates_of input =
      filter_by (λ rate. set_has rate.corridor_slug (to_set input.corridor_slugs))
        (select_latest_per_corridor parse_date locale_before input.latest_rates)

  unfoldable pub counts_of : ReputationEvidence N → ℤ → EvidenceCounts
  counts_of input evaluated_ms =
      let outcomes = outcomes_of parse_date input evaluated_ms in
      record {
        corridor_count = length (to_set input.corridor_slugs);
        latest_rate_count = length (latest_rates_of input);
        fresh_rate_count =
            length (filter_by (is_fresh parse_date (at evaluated_ms)) (latest_rates_of input));
        outcome_count = length outcomes;
        completed_outcome_count = length (filter_by is_completed outcomes);
        minimum_outcome_count = min_reputation_outcomes;
      }

module _ {N : Type 0} (parse_date : Text → Option ℤ) (locale_before : Text → Text → Bool)
    (is_finite : N → Bool) (less : N → N → Bool) where
  unfoldable pub calculate_reputation :
      ReputationEvidence N → Date → Option (ReputationCalculation N)
  calculate_reputation input invalid_date = none
  calculate_reputation input (at evaluated_ms) =
      let counts = counts_of parse_date locale_before input evaluated_ms in
      let scores = scores_of input.status counts in
      some (record {
        anchor_slug = input.anchor_slug;
        computed_at = evaluated_ms;
        state = if is_established counts then established else insufficient_evidence;
        score = score_of counts scores;
        score_band = band_of (score_of counts scores);
        components = components_of scores;
        evidence = counts;
        metrics =
            calculate_metrics parse_date is_finite less (outcomes_of parse_date input evaluated_ms)
              evaluated_ms;
      })
