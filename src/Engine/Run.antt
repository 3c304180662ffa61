-- ===== src/Engine/Run.antt =====
-- lib/rates/rateEngine.ts: `runRateEngine`.
use stellar_core.Prelude.{ℕ, ◌+◌, Option, none, some, List, [], ◌∷◌, ◌++◌, if◌then◌else◌, length}
use stellar_core.Prelude.Int.{Date}
use stellar_core.Prelude.Result.{Result, ok, throws}
use stellar_core.Prelude.Text.{set_has, Text, codes}
use stellar_core.Engine.{
  PersistedRateSnapshot, RateSnapshotPersistenceCode, anchor_not_found, corridor_not_found,
  association_not_found, run_not_found, persistence_failure, environment_mismatch, RateCandidate,
  RateEngineFailure, RateEngineSkippedSource, RateEngineResult, EngineDependencies,
  NormalizedRateObservation,
}
use stellar_core.Engine.Snapshot.{persist_rate_snapshot, present}
use stellar_core.Freshness.{of_date}
use stellar_core.Normalize.{Normalized, NormalizeIndicativeRateInput, NormalizedRateQuote}
use stellar_core.Normalize.Arithmetic.{normalize_indicative_rate}
use stellar_core.Quote.{Sep38IndicativePrice}
use stellar_core.Suppression.{Phase, quote, normalization, persistence, FailureCode, other_failure}

unfoldable pub engine_failure : RateCandidate → Phase → FailureCode → RateEngineFailure
engine_failure candidate phase code = record {
  anchor_slug = candidate.anchor_slug;
  corridor_slug = candidate.corridor.slug;
  phase = phase;
  code = code;
}

-- The code of a failed `persistRateSnapshot`, which is a string.
unfoldable pub persistence_text : RateSnapshotPersistenceCode → Text
persistence_text anchor_not_found = codes "ANCHOR_NOT_FOUND"
persistence_text corridor_not_found = codes "CORRIDOR_NOT_FOUND"
persistence_text association_not_found = codes "ASSOCIATION_NOT_FOUND"
persistence_text run_not_found = codes "RUN_NOT_FOUND"
persistence_text persistence_failure = codes "PERSISTENCE_FAILURE"
persistence_text environment_mismatch = codes "ENVIRONMENT_MISMATCH"

-- `${anchorSlug}\0${corridorSlug}`.
unfoldable pub key_of : Text → Text → Text
key_of anchor_slug corridor_slug = anchor_slug ++ (0 ∷ corridor_slug)

unfoldable pub candidate_key : RateCandidate → Text
candidate_key candidate = key_of candidate.anchor_slug candidate.corridor.slug

unfoldable pub normalization_input :
    RateCandidate → Sep38IndicativePrice → Date → NormalizeIndicativeRateInput
normalization_input candidate price now = record {
  anchor_slug = candidate.anchor_slug;
  corridor = candidate.corridor;
  quote = price;
  captured_at = of_date now;
  request = some candidate.request;
  expected_sell_asset = none;
  expected_buy_asset = none;
}

-- What an attempt ends with: a snapshot, or the failure that is pushed.
abbrev pub Attempt : Type 0 → Type 0
Attempt S = S × Result RateEngineFailure PersistedRateSnapshot

module _ {S : Type 0} where
  unfoldable pub after_persist :
      RateCandidate → S × Result RateSnapshotPersistenceCode PersistedRateSnapshot → Attempt S
  after_persist candidate (s, ok snapshot) = (s, ok snapshot)
  after_persist candidate (s, throws code) =
      (s, throws (engine_failure candidate persistence (other_failure (persistence_text code))))

  unfoldable pub observation_of :
      EngineDependencies S → RateCandidate → NormalizedRateQuote → NormalizedRateObservation
  observation_of d candidate normalized = record {
    quoted = normalized;
    configuration_fingerprint = d.configuration_fingerprint;
    capture_run_id = present candidate.capture_run_id;
  }

  unfoldable pub after_normalize :
      EngineDependencies S → RateCandidate → S → Normalized NormalizedRateQuote → Attempt S
  unfolding after_persist
  after_normalize d candidate s (ok normalized) =
      after_persist candidate
        (persist_rate_snapshot d.repository (observation_of d candidate normalized) s)
  after_normalize d candidate s (throws code) =
      (s, throws (engine_failure candidate normalization code))

  unfoldable pub after_clock :
      EngineDependencies S → RateCandidate → Sep38IndicativePrice → S × Option Date → Attempt S
  unfolding after_normalize
  after_clock d candidate price (s, none) = (
    s,
    throws (engine_failure candidate normalization (other_failure (codes "NORMALIZATION_FAILURE"))),
  )
  after_clock d candidate price (s, some now) =
      after_normalize d candidate s
        (normalize_indicative_rate d.parse_date (normalization_input candidate price now))

  unfoldable pub after_quote :
      EngineDependencies S → RateCandidate → S × Option Sep38IndicativePrice → Attempt S
  unfolding after_clock
  after_quote d candidate (s, none) =
      (s, throws (engine_failure candidate quote (other_failure (codes "QUOTE_FAILURE"))))
  after_quote d candidate (s, some price) = after_clock d candidate price (d.now s)

  -- The body of the loop behind the test for a duplicate.
  unfoldable pub attempt : EngineDependencies S → RateCandidate → S → Attempt S
  unfolding after_quote
  attempt d candidate s = after_quote d candidate (d.quote_of candidate s)

-- The variables of the loop.
pub record EngineState (S : Type 0) : Type 0 where
  pub world : S
  pub seen : List Text
  pub total_attempted : ℕ
  pub snapshots : List PersistedRateSnapshot
  pub failures : List RateEngineFailure
  pub skipped_sources : List RateEngineSkippedSource

module _ {S : Type 0} where
  unfoldable pub skip : EngineState S → RateCandidate → EngineState S
  skip st candidate = record st {
    skipped_sources =
        st.skipped_sources
        ++ (record { anchor_slug = candidate.anchor_slug; corridor_slug = candidate.corridor.slug }
            ∷ []);
  }

  unfoldable pub push : EngineState S → Attempt S → EngineState S
  push st (s, ok snapshot) = record st { world = s; snapshots = st.snapshots ++ (snapshot ∷ []) }
  push st (s, throws failure) = record st { world = s; failures = st.failures ++ (failure ∷ []) }

  unfoldable pub begin_attempt : EngineState S → RateCandidate → EngineState S
  begin_attempt st candidate = record st {
    seen = candidate_key candidate ∷ st.seen;
    total_attempted = st.total_attempted + 1;
  }

  -- One round of the loop.
  unfoldable pub step : EngineDependencies S → EngineState S → RateCandidate → EngineState S
  step d st candidate =
      if set_has (candidate_key candidate) st.seen
      then skip st candidate
      else push (begin_attempt st candidate) (attempt d candidate st.world)

  unfoldable pub run_loop :
      EngineDependencies S → List RateCandidate → EngineState S → EngineState S
  run_loop d [] st = st
  run_loop d (candidate ∷ candidates) st = run_loop d candidates (step d st candidate)

  unfoldable pub initial_state : S → EngineState S
  initial_state s = record {
    world = s;
    seen = [];
    total_attempted = 0;
    snapshots = [];
    failures = [];
    skipped_sources = [];
  }

  unfoldable pub result_of : List RateCandidate → EngineState S → RateEngineResult
  result_of candidates st = record {
    total_candidates = length candidates;
    total_attempted = st.total_attempted;
    succeeded = length st.snapshots;
    failed = length st.failures;
    skipped = length st.skipped_sources;
    snapshots_persisted = length st.snapshots;
    snapshots = st.snapshots;
    failures = st.failures;
    skipped_sources = st.skipped_sources;
  }

  unfoldable pub run_rate_engine :
      EngineDependencies S → List RateCandidate → S → S × RateEngineResult
  run_rate_engine d candidates s =
      let st = run_loop d candidates (initial_state s) in (st.world, result_of candidates st)
