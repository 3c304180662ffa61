-- ===== src/Engine.antt =====
-- lib/rates/snapshot.ts and lib/rates/rateEngine.ts: quotes become stored rate snapshots.
-- The repository, the quote provider and the clock are injected, and act on a world S; a call of
-- any of them may throw.
mod Snapshot
mod Run
mod Attempts
mod Counts
mod Outcome
mod Stores
mod Tests
use stellar_core.Prelude.{ℕ, Bool, Option, List}
use stellar_core.Prelude.Int.{ℤ, Date}
use stellar_core.Prelude.Result.{Result}
use stellar_core.Prelude.Text.{Text}
use stellar_core.Normalize.{NormalizedRateQuote}
use stellar_core.Quote.{Sep38IndicativePrice, Sep38QuoteRequest}
use stellar_core.Reconcile.Types.{CorridorRegistryEntry}
use stellar_core.Suppression.{Phase, FailureCode}

-- `NormalizedRateObservation`: the quote of lib/rates/normalize.ts with its provenance.
pub record NormalizedRateObservation : Type 0 where
  pub quoted : NormalizedRateQuote
  pub configuration_fingerprint : Option Text
  pub capture_run_id : Option Text

pub record PersistedRateSnapshot : Type 0 where
  pub id : Text
  pub anchor_slug : Text
  pub corridor_slug : Text
  pub rate : Text
  pub source_amount : Text
  pub destination_amount : Text
  pub fee : Text
  pub captured_at : Date
  pub configuration_fingerprint : Option Text
  pub provenance_unavailable : Bool
  pub capture_run_id : Option Text

pub data RateSnapshotPersistenceCode : Type 0 where
  anchor_not_found corridor_not_found association_not_found : RateSnapshotPersistenceCode
  run_not_found persistence_failure environment_mismatch : RateSnapshotPersistenceCode

-- What a repository call throws: `EnvironmentIsolationRejection`, or anything else.
pub data RepositoryError : Type 0 where
  environment_isolation_rejection other_error : RepositoryError

-- The argument of `createSnapshot`.
pub record SnapshotInput : Type 0 where
  pub anchor_id : Text
  pub corridor_id : Text
  pub rate : Text
  pub source_amount : Text
  pub destination_amount : Text
  pub fee : Text
  pub captured_at : ℤ
  pub configuration_fingerprint : Option Text
  pub capture_run_id : Option Text

-- The stored row; its amounts as their `toString()` writes them.
pub record SnapshotRow : Type 0 where
  pub id : Text
  pub rate : Text
  pub source_amount : Text
  pub destination_amount : Text
  pub fee : Text
  pub captured_at : Date
  pub configuration_fingerprint : Option Text
  pub provenance_unavailable : Option Bool
  pub capture_run_id : Option Text

-- A call that acts on the world, and that gives a value or throws.
abbrev pub Action : Type 0 → Type 0 → Type 0 → Type 0
Action S E A = S → S × Result E A

-- `RateSnapshotRepository`, as far as `persistRateSnapshot` calls it.
pub record RateSnapshotRepository (S : Type 0) : Type 0 where
  pub find_anchor_by_slug : Text → Action S RepositoryError (Option Text)
  pub find_corridor_by_slug : Text → Action S RepositoryError (Option Text)
  pub has_association : Text → Text → Action S RepositoryError Bool
  pub find_run_by_id : Option (Text → Action S RepositoryError (Option Text))
  pub create_snapshot : SnapshotInput → Action S RepositoryError SnapshotRow

pub record RateCandidate : Type 0 where
  pub anchor_slug : Text
  pub corridor : CorridorRegistryEntry
  pub request : Sep38QuoteRequest
  pub capture_run_id : Option Text

pub record RateEngineFailure : Type 0 where
  pub anchor_slug : Text
  pub corridor_slug : Text
  pub phase : Phase
  pub code : FailureCode

-- `RateEngineSkippedSource`, whose reason is always DUPLICATE_CANDIDATE.
pub record RateEngineSkippedSource : Type 0 where
  pub anchor_slug : Text
  pub corridor_slug : Text

pub record RateEngineResult : Type 0 where
  pub total_candidates : ℕ
  pub total_attempted : ℕ
  pub succeeded : ℕ
  pub failed : ℕ
  pub skipped : ℕ
  pub snapshots_persisted : ℕ
  pub snapshots : List PersistedRateSnapshot
  pub failures : List RateEngineFailure
  pub skipped_sources : List RateEngineSkippedSource

-- The dependencies of `runRateEngine`. The quote provider and the clock give `none` where they throw.
pub record EngineDependencies (S : Type 0) : Type 0 where
  pub quote_of : RateCandidate → S → S × Option Sep38IndicativePrice
  pub repository : RateSnapshotRepository S
  pub now : S → S × Option Date
  pub parse_date : Text → Option ℤ
  pub configuration_fingerprint : Option Text
