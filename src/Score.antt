-- ===== src/Score.antt =====
-- types/reputation.ts, constants/reputation.ts and the arithmetic of lib/reputation/score.ts. A
-- bigint is a natural number, and so is a basis point. The numbers of the settlement times and of
-- the slippage, which are only compared, are a type of the caller.
mod Latest
mod Metrics
mod Calculate
mod Bounds
mod Counted
mod Range
mod Tests
use stellar_core.Prelude.{
  ℕ, ◌+◌, ◌*◌, ◌/◌, Bool, true, false, ◌||◌, Option, List, leb, if◌then◌else◌,
}
use stellar_core.Prelude.Int.{ℤ}
use stellar_core.Prelude.Text.{Text}
use stellar_core.Freshness.{Instant}

pub data ReputationAnchorStatus : Type 0 where
  live degraded down unknown : ReputationAnchorStatus

pub data ReputationTransferStatus : Type 0 where
  completed partial refunded expired error : ReputationTransferStatus

pub record LatestRate : Type 0 where
  pub corridor_slug : Text
  pub captured_at : Instant

pub record TransferOutcome (N : Type 0) : Type 0 where
  pub status : ReputationTransferStatus
  pub settlement_ms : N
  pub slippage : N
  pub recorded_at : Instant

-- The fields that the calculation reads.
pub record ReputationEvidence (N : Type 0) : Type 0 where
  pub anchor_slug : Text
  pub status : ReputationAnchorStatus
  pub corridor_slugs : List Text
  pub latest_rates : List LatestRate
  pub transfer_outcomes : List (TransferOutcome N)

pub record ReputationComponent : Type 0 where
  pub weight : ℕ
  pub score : ℕ
  pub earned_points : ℕ

pub record Components : Type 0 where
  pub availability : ReputationComponent
  pub rate_freshness : ReputationComponent
  pub coverage : ReputationComponent
  pub transfer_reliability : ReputationComponent

pub record EvidenceCounts : Type 0 where
  pub corridor_count : ℕ
  pub latest_rate_count : ℕ
  pub fresh_rate_count : ℕ
  pub outcome_count : ℕ
  pub completed_outcome_count : ℕ
  pub minimum_outcome_count : ℕ

-- A fill rate is in ten-thousandths.
pub record ReputationMetrics (N : Type 0) : Type 0 where
  pub fill_rate_7d : Option ℕ
  pub fill_rate_30d : Option ℕ
  pub fill_rate_90d : Option ℕ
  pub settle_p50_ms : Option N
  pub settle_p95_ms : Option N
  pub slippage_p50 : Option N
  pub slippage_p95 : Option N

pub data CalculationState : Type 0 where
  insufficient_evidence established : CalculationState

pub data ScoreBand : Type 0 where
  green amber red : ScoreBand

-- `computedAt` is the time that the source formats.
pub record ReputationCalculation (N : Type 0) : Type 0 where
  pub anchor_slug : Text
  pub computed_at : ℤ
  pub state : CalculationState
  pub score : Option ℕ
  pub score_band : Option ScoreBand
  pub components : Components
  pub evidence : EvidenceCounts
  pub metrics : ReputationMetrics N

abbrev pub reputation_metrics_window_days : ℕ
reputation_metrics_window_days = 30

abbrev pub min_reputation_outcomes : ℕ
min_reputation_outcomes = 30

-- `REPUTATION_WEIGHTS`.
abbrev pub availability_weight : ℕ
availability_weight = 20

abbrev pub rate_freshness_weight : ℕ
rate_freshness_weight = 15

abbrev pub coverage_weight : ℕ
coverage_weight = 15

abbrev pub transfer_reliability_weight : ℕ
transfer_reliability_weight = 50

-- `REPUTATION_BANDS`.
abbrev pub green_minimum : ℕ
green_minimum = 95

abbrev pub amber_minimum : ℕ
amber_minimum = 80

abbrev pub basis_points : ℕ
basis_points = 10000

unfoldable pub availability_score : ReputationAnchorStatus → ℕ
availability_score live = 100
availability_score degraded = 50
availability_score _ = 0

unfoldable pub round_div : ℕ → ℕ → ℕ
round_div numerator denominator = (numerator + denominator / 2) / denominator

unfoldable pub ratio_basis_points : ℕ → ℕ → ℕ
unfolding round_div
ratio_basis_points numerator denominator =
    if leb denominator 0 || leb numerator 0
    then 0
    else round_div (numerator * basis_points) denominator

unfoldable pub basis_points_to_integer : ℕ → ℕ
unfolding round_div
basis_points_to_integer value = round_div value 100

unfoldable pub component : ℕ → ℕ → ReputationComponent
unfolding basis_points_to_integer round_div
component weight score_basis_points = record {
  weight = weight;
  score = basis_points_to_integer score_basis_points;
  earned_points = round_div (score_basis_points * weight) basis_points;
}

unfoldable pub score_band_of : ℕ → ScoreBand
score_band_of score =
    if leb green_minimum score then green else if leb amber_minimum score then amber else red

unfoldable pub is_completed : {N : Type 0} → TransferOutcome N → Bool
is_completed o = elim o.status [ completed ↦ true | _ ↦ false ]
