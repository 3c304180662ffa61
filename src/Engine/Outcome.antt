-- ===== src/Engine/Outcome.antt =====
-- lib/rates/snapshot.ts: how `persistRateSnapshot` may end, and why.
use stellar_core.Prelude.{◌≡◌, ◌⊎◌, true, false, Option, none, some, []}
use stellar_core.Prelude.Result.{Result, ok, throws}
use stellar_core.Prelude.Text.{Text}
use stellar_core.Engine.{
  NormalizedRateObservation, PersistedRateSnapshot, RateSnapshotPersistenceCode,
  persistence_failure, environment_mismatch, RepositoryError, SnapshotRow, Action,
  RateSnapshotRepository, anchor_not_found, corridor_not_found, association_not_found,
  run_not_found, environment_isolation_rejection, other_error,
}
use stellar_core.Engine.Snapshot.{input_of, snapshot_of}

-- The lookups of a repository, unlike `createSnapshot`, leave the world as it is.
pub record IsReadOnly {S : Type 0} (r : RateSnapshotRepository S) : Type 0 where
  pub anchor_kept : (slug : Text) (s : S) → (r.find_anchor_by_slug slug s).0 ≡ s
  pub corridor_kept : (slug : Text) (s : S) → (r.find_corridor_by_slug slug s).0 ≡ s
  pub association_kept :
      (anchor_id corridor_id : Text) (s : S) → (r.has_association anchor_id corridor_id s).0 ≡ s
  pub run_kept :
      (find : Text → Action S RepositoryError (Option Text)) (id : Text) (s : S)
      → r.find_run_by_id ≡ some find
      → (find id s).0 ≡ s

-- The repository finds the anchor and the corridor of an observation, and they are associated.
pub record IsLocated {S : Type 0} (r : RateSnapshotRepository S) (o : NormalizedRateObservation)
    (s : S) (anchor_id corridor_id : Text) : Type 0 where
  pub anchor_found : r.find_anchor_by_slug o.quoted.anchor_slug s ≡ (s, ok (some anchor_id))
  pub corridor_found : r.find_corridor_by_slug o.quoted.corridor_slug s ≡ (s, ok (some corridor_id))
  pub is_associated : r.has_association anchor_id corridor_id s ≡ (s, ok true)

-- The run that the observation names is looked up, with this result.
abbrev pub LooksUpRun :
    {S : Type 0}
    → RateSnapshotRepository S
    → NormalizedRateObservation
    → S
    → S × Result RepositoryError (Option Text)
    → Type 0
LooksUpRun r o s result =
    (id : Text) × (find : Text → Action _ RepositoryError (Option Text)) × (o.capture_run_id
      ≡ some id)
    × (r.find_run_by_id ≡ some find)
    × (find id s ≡ result)

-- No run is named, or the repository cannot look it up, or it is found.
abbrev pub IsRunKnown :
    {S : Type 0} → RateSnapshotRepository S → NormalizedRateObservation → S → Type 0
IsRunKnown r o s =
    (o.capture_run_id ≡ none)
    ⊎ (o.capture_run_id ≡ some [])
    ⊎ (r.find_run_by_id ≡ none)
    ⊎ ((run : Text) × LooksUpRun r o s (s, ok (some run)))

-- What a lookup must answer for each code that is returned.
pub data IsRefused {S : Type 0} (r : RateSnapshotRepository S) (o : NormalizedRateObservation)
    (s : S) : RateSnapshotPersistenceCode → Type 0 where
  no_anchor :
      r.find_anchor_by_slug o.quoted.anchor_slug s ≡ (s, ok none) → IsRefused r o s anchor_not_found
  no_corridor :
      (anchor_id : Text)
      → r.find_anchor_by_slug o.quoted.anchor_slug s ≡ (s, ok (some anchor_id))
      → r.find_corridor_by_slug o.quoted.corridor_slug s ≡ (s, ok none)
      → IsRefused r o s corridor_not_found
  no_association :
      (anchor_id corridor_id : Text)
      → r.find_anchor_by_slug o.quoted.anchor_slug s ≡ (s, ok (some anchor_id))
      → r.find_corridor_by_slug o.quoted.corridor_slug s ≡ (s, ok (some corridor_id))
      → r.has_association anchor_id corridor_id s ≡ (s, ok false)
      → IsRefused r o s association_not_found
  no_run :
      (anchor_id corridor_id : Text)
      → IsLocated r o s anchor_id corridor_id
      → LooksUpRun r o s (s, ok none)
      → IsRefused r o s run_not_found

-- The call that threw an error, and the world that it left.
pub data HasThrown {S : Type 0} (r : RateSnapshotRepository S) (o : NormalizedRateObservation)
    (s s' : S) (e : RepositoryError) : Type 0 where
  anchor_threw :
      r.find_anchor_by_slug o.quoted.anchor_slug s ≡ (s', throws e) → HasThrown r o s s' e
  corridor_threw :
      r.find_corridor_by_slug o.quoted.corridor_slug s ≡ (s', throws e) → HasThrown r o s s' e
  association_threw :
      (anchor_id corridor_id : Text)
      → r.find_anchor_by_slug o.quoted.anchor_slug s ≡ (s, ok (some anchor_id))
      → r.find_corridor_by_slug o.quoted.corridor_slug s ≡ (s, ok (some corridor_id))
      → r.has_association anchor_id corridor_id s ≡ (s', throws e)
      → HasThrown r o s s' e
  run_threw : LooksUpRun r o s (s', throws e) → HasThrown r o s s' e
  create_threw :
      (anchor_id corridor_id : Text)
      → IsLocated r o s anchor_id corridor_id
      → IsRunKnown r o s
      → r.create_snapshot (input_of o anchor_id corridor_id) s ≡ (s', throws e)
      → HasThrown r o s s' e

-- The code for an error that was thrown.
abbrev pub IsCodeOf : RepositoryError → RateSnapshotPersistenceCode → Type 0
IsCodeOf environment_isolation_rejection code = code ≡ environment_mismatch
IsCodeOf other_error code = code ≡ persistence_failure

module _ {S : Type 0} where
  -- A snapshot was created for the found anchor and corridor.
  abbrev pub IsStored :
      RateSnapshotRepository S → NormalizedRateObservation → S → S → PersistedRateSnapshot → Type 0
  IsStored r o s s' snapshot =
      (anchor_id : Text) × (corridor_id : Text) × (row : SnapshotRow) × IsLocated r o s anchor_id
        corridor_id
      × IsRunKnown r o s
      × (r.create_snapshot (input_of o anchor_id corridor_id) s ≡ (s', ok row))
      × (snapshot ≡ snapshot_of o row)

  -- How a call of `persistRateSnapshot` may end.
  abbrev pub PersistEnds :
      RateSnapshotRepository S
      → NormalizedRateObservation
      → S
      → S × Result RateSnapshotPersistenceCode PersistedRateSnapshot
      → Type 0
  PersistEnds r o s (s', ok snapshot) = IsStored r o s s' snapshot
  PersistEnds r o s (s', throws code) =
      ((s' ≡ s) × IsRefused r o s code)
      ⊎ ((e : RepositoryError) × HasThrown r o s s' e × IsCodeOf e code)
