-- ===== src/Engine/Snapshot.antt =====
-- lib/rates/snapshot.ts: `persistRateSnapshot`.
use stellar_core.Prelude.{Bool, true, false, Option, none, some, ◌∷◌}
use stellar_core.Prelude.Result.{Result, ok, throws}
use stellar_core.Prelude.Text.{Text}
use stellar_core.Engine.{
  NormalizedRateObservation, PersistedRateSnapshot, RateSnapshotPersistenceCode, anchor_not_found,
  corridor_not_found, association_not_found, run_not_found, persistence_failure,
  environment_mismatch, RepositoryError, environment_isolation_rejection, other_error,
  SnapshotInput, SnapshotRow, Action, RateSnapshotRepository,
}

-- How the body of the `try` ends without a snapshot: by `return failure(code)`, or by a throw.
pub data Exit : Type 0 where
  returned : RateSnapshotPersistenceCode → Exit
  thrown : RepositoryError → Exit

-- The `catch`.
unfoldable pub exit_code : Exit → RateSnapshotPersistenceCode
exit_code (returned code) = code
exit_code (thrown environment_isolation_rejection) = environment_mismatch
exit_code (thrown other_error) = persistence_failure

-- A non-empty string, as a condition takes it.
unfoldable pub present : Option Text → Option Text
present (some (c ∷ s)) = some (c ∷ s)
present _ = none

unfoldable pub first_present : Option Text → Option Text → Option Text
unfolding present
first_present (some (c ∷ s)) other = some (c ∷ s)
first_present _ other = present other

unfoldable pub or_false : Option Bool → Bool
or_false none = false
or_false (some b) = b

unfoldable pub input_of : NormalizedRateObservation → Text → Text → SnapshotInput
input_of o anchor_id corridor_id = record {
  anchor_id = anchor_id;
  corridor_id = corridor_id;
  rate = o.quoted.rate;
  source_amount = o.quoted.source_amount;
  destination_amount = o.quoted.destination_amount;
  fee = o.quoted.fee;
  captured_at = o.quoted.captured_at;
  configuration_fingerprint = o.configuration_fingerprint;
  capture_run_id = present o.capture_run_id;
}

unfoldable pub snapshot_of : NormalizedRateObservation → SnapshotRow → PersistedRateSnapshot
snapshot_of o row = record {
  id = row.id;
  anchor_slug = o.quoted.anchor_slug;
  corridor_slug = o.quoted.corridor_slug;
  rate = row.rate;
  source_amount = row.source_amount;
  destination_amount = row.destination_amount;
  fee = row.fee;
  captured_at = row.captured_at;
  configuration_fingerprint = row.configuration_fingerprint;
  provenance_unavailable = or_false row.provenance_unavailable;
  capture_run_id = first_present row.capture_run_id o.capture_run_id;
}

module _ {S : Type 0} where
  unfoldable pub bind_result :
      {A B : Type 0} → S × Result RepositoryError A → (A → Action S Exit B) → S × Result Exit B
  bind_result (s, ok a) k = k a s
  bind_result (s, throws e) k = (s, throws (thrown e))

  -- `await` of a repository call, with what follows.
  unfoldable pub awaiting :
      {A B : Type 0} → Action S RepositoryError A → (A → Action S Exit B) → Action S Exit B
  unfolding bind_result
  awaiting call k s = bind_result (call s) k

  -- `if (!value) return failure(code)`, with what follows.
  unfoldable pub found :
      {A B : Type 0}
      → RateSnapshotPersistenceCode
      → (A → Action S Exit B)
      → Option A
      → Action S Exit B
  found code k none s = (s, throws (returned code))
  found code k (some a) s = k a s

  unfoldable pub holds :
      {B : Type 0} → RateSnapshotPersistenceCode → Action S Exit B → Bool → Action S Exit B
  holds code k false s = (s, throws (returned code))
  holds code k true s = k s

  -- The lookup of the run, where one is named and the repository can look it up.
  unfoldable pub check_run :
      {B : Type 0}
      → Option Text
      → Option (Text → Action S RepositoryError (Option Text))
      → Action S Exit B
      → Action S Exit B
  check_run (some run_id) (some find) k = awaiting (find run_id) (found run_not_found (λ _. k))
  check_run _ _ k = k

  unfoldable pub persist_body :
      RateSnapshotRepository S → NormalizedRateObservation → Action S Exit PersistedRateSnapshot
  persist_body r o = awaiting (r.find_anchor_by_slug o.quoted.anchor_slug) (
      found anchor_not_found (λ anchor. awaiting (r.find_corridor_by_slug o.quoted.corridor_slug) (
        found corridor_not_found (λ corridor. awaiting (r.has_association anchor corridor) (
          holds association_not_found (
            check_run (present o.capture_run_id) r.find_run_by_id (
              awaiting (r.create_snapshot (input_of o anchor corridor))
                (λ row s. (s, ok (snapshot_of o row))))))))))

  unfoldable pub catching :
      S × Result Exit PersistedRateSnapshot
      → S × Result RateSnapshotPersistenceCode PersistedRateSnapshot
  catching (s, ok snapshot) = (s, ok snapshot)
  catching (s, throws e) = (s, throws (exit_code e))

  unfoldable pub persist_rate_snapshot :
      RateSnapshotRepository S
      → NormalizedRateObservation
      → Action S RateSnapshotPersistenceCode PersistedRateSnapshot
  unfolding catching
  persist_rate_snapshot r o s = catching (persist_body r o s)
