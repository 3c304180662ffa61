-- ===== src/Score/Range.antt =====
-- lib/reputation/score.ts: the ranges of a calculation, and when a score is published.
use stellar_core.Prelude.{
  ℕ, ◌+◌, ◌≤◌, ◌≡◌, some, ◌<◌, refl, ◌↔◌, Bool, Option, none, arith, if◌then◌else◌, true,
}
use stellar_core.Prelude.Int.{ℤ, at}
use stellar_core.Prelude.Predicates.{any, count_by}
use stellar_core.Prelude.Text.{Text}
use native.Mathlib.Nat.{mul-le-mul_right}
use stellar_core.Score.{
  ReputationComponent, Components, ReputationCalculation, round_div, basis_points_to_integer,
  component, ReputationAnchorStatus, ReputationEvidence, EvidenceCounts, insufficient_evidence,
  established, green, amber, red, availability_score, score_band_of,
}
use stellar_core.Score.Bounds.{ratio_basis_points-le, IsCoherent, counts_of-IsCoherent}
use stellar_core.Score.Calculate.{
  weighted_score, Scores, scores_of, components_of, is_established, score_of, band_of, counts_of,
  calculate_reputation,
}
use stellar_core.Score.Counted.{counts_at, is_listed, outcomes_of-counted, latest_rates_of-listed}

pub record IsComponentInRange (c : ReputationComponent) : Type 0 where
  pub score_range : c.score ≤ 100
  pub points_range : c.earned_points ≤ c.weight

abbrev pub earned_total : Components → ℕ
earned_total c =
    c.availability.earned_points + c.rate_freshness.earned_points + c.coverage.earned_points
    + c.transfer_reliability.earned_points

-- What a reader of a calculation relies on.
pub record IsInRange {N : Type 0} (c : ReputationCalculation N) : Type 0 where
  pub availability_range : IsComponentInRange c.components.availability
  pub freshness_range : IsComponentInRange c.components.rate_freshness
  pub coverage_range : IsComponentInRange c.components.coverage
  pub reliability_range : IsComponentInRange c.components.transfer_reliability
  pub score_range :
      (n : ℕ)
      → c.score ≡ some n
      → (n ≤ 100) × (n ≤ earned_total c.components + 2) × (earned_total c.components ≤ n + 2)

component-IsComponentInRange :
    (weight score : ℕ) → score ≤ 10000 → IsComponentInRange (component weight score)
unfolding component basis_points_to_integer round_div
component-IsComponentInRange weight score h =
    let scaled = mul-le-mul_right weight h in ground (arith, scaled)

scores_of-le :
    (status : ReputationAnchorStatus) (e : EvidenceCounts)
    → IsCoherent e
    → ((scores_of status e).availability ≤ 10000)
      × ((scores_of status e).freshness ≤ 10000)
      × ((scores_of status e).coverage ≤ 10000)
      × ((scores_of status e).reliability ≤ 10000)
unfolding scores_of availability_score
scores_of-le status e h = (
  ground arith,
  ratio_basis_points-le e.fresh_rate_count e.latest_rate_count h.fresh_of_latest,
  ratio_basis_points-le e.fresh_rate_count e.corridor_count h.fresh_of_corridors,
  ratio_basis_points-le e.completed_outcome_count e.outcome_count h.completed_of_outcomes,
)

-- The score is the rounding of a sum, and the points of the components are each rounded.
weighted_score-range :
    (s : Scores)
    → s.availability ≤ 10000
    → s.freshness ≤ 10000
    → s.coverage ≤ 10000
    → s.reliability ≤ 10000
    → let n = weighted_score s.availability s.freshness s.coverage s.reliability in
      (n ≤ 100)
      × (n ≤ earned_total (components_of s) + 2)
      × (earned_total (components_of s) ≤ n + 2)
unfolding weighted_score components_of component round_div
weighted_score-range s a f c r = omega arith

pub record IsPublication {N : Type 0} (parse_date : Text → Option ℤ) (input : ReputationEvidence N)
    (evaluated_ms : ℤ) (c : ReputationCalculation N) : Type 0 where
  pub established_for : (c.state ≡ established) ↔ (
      (30 ≤ count_by (counts_at parse_date evaluated_ms) input.transfer_outcomes)
      × (any (is_listed input.corridor_slugs) input.latest_rates ≡ true))
  pub outcomes_counted :
      c.evidence.outcome_count
      ≡ count_by (counts_at parse_date evaluated_ms) input.transfer_outcomes
  pub scored_for : (c.state ≡ insufficient_evidence) ↔ (c.score ≡ none)
  pub green_for : (c.score_band ≡ some green) ↔ ((n : ℕ) × (c.score ≡ some n) × (95 ≤ n))
  pub amber_for : (c.score_band ≡ some amber) ↔ ((n : ℕ) × (c.score ≡ some n) × (80 ≤ n) × (n < 95))
  pub red_for : (c.score_band ≡ some red) ↔ ((n : ℕ) × (c.score ≡ some n) × (n < 80))

band_of_lem :
    (o : Option ℕ)
    → ((band_of o ≡ some green) ↔ ((n : ℕ) × (o ≡ some n) × (95 ≤ n)))
      × ((band_of o ≡ some amber) ↔ ((n : ℕ) × (o ≡ some n) × (80 ≤ n) × (n < 95)))
      × ((band_of o ≡ some red) ↔ ((n : ℕ) × (o ≡ some n) × (n < 80)))
unfolding band_of score_band_of
band_of_lem none =
    (((λ e. cc), λ (n, e, h). cc), ((λ e. cc), λ (n, e, h, k). cc), ((λ e. cc), λ (n, e, h). cc))
band_of_lem (some m) = (
  ((λ e. (m, refl, ground arith)), λ (n, e, h). ground arith),
  ((λ e. (m, refl, ground arith, ground arith)), λ (n, e, h, k). ground arith),
  ((λ e. (m, refl, ground arith)), λ (n, e, h). ground arith),
)

score_of_lem :
    (e : EvidenceCounts) (s : Scores)
    → (((if is_established e then established else insufficient_evidence) ≡ established)
        ↔ ((30 ≤ e.outcome_count) × (1 ≤ e.corridor_count) × (1 ≤ e.latest_rate_count)))
      × (((if is_established e then established else insufficient_evidence) ≡ insufficient_evidence)
          ↔ (score_of e s ≡ none))
unfolding is_established score_of
score_of_lem e s = ground arith

established_input :
    (outcomes counted corridors latest : ℕ) {P : Type 0} (listed : Type 0)
    → P ↔ ((30 ≤ outcomes) × (1 ≤ corridors) × (1 ≤ latest))
    → outcomes ≡ counted
    → latest ≤ corridors
    → (1 ≤ latest) ↔ listed
    → P ↔ ((30 ≤ counted) × listed)
established_input outcomes counted corridors latest listed h o l k = (
  (λ p. (omega (arith, (h.0 p).0, o), k.0 (h.0 p).2)),
  λ (n, x). h.1 (omega (arith, n, o), omega (arith, l, k.1 x), k.1 x),
)

module _ {N : Type 0} (parse_date : Text → Option ℤ) (locale_before : Text → Text → Bool)
    (is_finite : N → Bool) (less : N → N → Bool) where
  -- Whatever the evidence, a calculation for a valid time is returned, and it stays in range: the
  -- score of a component is at most 100 and its points at most its weight, a published score is at
  -- most 100, and it differs from the sum of the points, each of which is rounded, by at most 2.
  pub calculate_reputation-IsInRange :
      (input : ReputationEvidence N) (evaluated_ms : ℤ)
      → (c : ReputationCalculation N) × (calculate_reputation parse_date locale_before is_finite
            less input
            (at evaluated_ms)
          ≡ some c)
        × IsInRange c
  unfolding calculate_reputation score_of components_of
  calculate_reputation-IsInRange input evaluated_ms =
      let counts = counts_of parse_date locale_before input evaluated_ms in
      let scores = scores_of input.status counts in
      let coherent = counts_of-IsCoherent parse_date locale_before input evaluated_ms in
      let le = scores_of-le input.status counts coherent in
      let range = weighted_score-range scores le.0 le.1 le.2 le.3 in
      (
        _,
        refl,
        record {
          availability_range = component-IsComponentInRange 20 scores.availability le.0;
          freshness_range = component-IsComponentInRange 15 scores.freshness le.1;
          coverage_range = component-IsComponentInRange 15 scores.coverage le.2;
          reliability_range = component-IsComponentInRange 50 scores.reliability le.3;
          score_range = λ n e. ground (arith, range);
        },
      )

  -- Whatever the evidence, a calculation for a valid time is returned. It counts the outcomes whose
  -- recorded time is valid and not later than the evaluation, and publishes a score, with the state
  -- `established`, exactly when there are at least 30 of them and a rate of the evidence is for a
  -- corridor that the evidence lists; the band is GREEN exactly for a score of at least 95, AMBER for one
  -- from 80 to 94 and RED for a lower one.
  pub calculate_reputation-IsPublication :
      (input : ReputationEvidence N) (evaluated_ms : ℤ)
      → (c : ReputationCalculation N) × (calculate_reputation parse_date locale_before is_finite
            less input
            (at evaluated_ms)
          ≡ some c)
        × IsPublication parse_date input evaluated_ms c
  unfolding calculate_reputation counts_of
  calculate_reputation-IsPublication input evaluated_ms =
      let counts = counts_of parse_date locale_before input evaluated_ms in
      let scores = scores_of input.status counts in
      let bands = band_of_lem (score_of counts scores) in
      let states = score_of_lem counts scores in
      (
        _,
        refl,
        record {
          established_for =
              established_input _ _ _ _ _ states.0
                (outcomes_of-counted parse_date input evaluated_ms)
                (counts_of-IsCoherent parse_date locale_before input
                  evaluated_ms).latest_of_corridors
                (latest_rates_of-listed parse_date locale_before input);
          outcomes_counted = outcomes_of-counted parse_date input evaluated_ms;
          scored_for = states.1;
          green_for = bands.0;
          amber_for = bands.1;
          red_for = bands.2;
        },
      )
