-- ===== src/Engine/Stores.antt =====
-- lib/rates/snapshot.ts: when a snapshot is stored.
use stellar_core.Prelude.{◌≡◌, refl, Bool, true, false, Option, none, some}
use stellar_core.Prelude.Result.{Result, ok, throws}
use stellar_core.Prelude.Text.{Text}
use stellar_core.Engine.{
  NormalizedRateObservation, PersistedRateSnapshot, RateSnapshotPersistenceCode, RepositoryError,
  Action, RateSnapshotRepository,
}
use stellar_core.Engine.Outcome.{IsRefused, HasThrown, IsStored}
use stellar_core.Engine.Snapshot.{returned, Exit, thrown, awaiting, found, holds, bind_result}

module _ {S : Type 0} where
  -- How the body of the `try` may end.
  abbrev BodyEnds :
      RateSnapshotRepository S
      → NormalizedRateObservation
      → S
      → S × Result Exit PersistedRateSnapshot
      → Type 0
  BodyEnds r o s (s', ok snapshot) = IsStored r o s s' snapshot
  BodyEnds r o s (s', throws (returned code)) = (s' ≡ s) × IsRefused r o s code
  BodyEnds r o s (s', throws (thrown e)) = HasThrown r o s s' e

  bind_result_lem :
      {A B : Type 0} (Q : S × Result Exit B → Type 0) (x : S × Result RepositoryError A)
      (k : A → Action S Exit B)
      → ((s' : S) (e : RepositoryError) → x ≡ (s', throws e) → Q (s', throws (thrown e)))
      → ((s' : S) (a : A) → x ≡ (s', ok a) → Q (k a s'))
      → Q (bind_result x k)
  unfolding bind_result
  bind_result_lem Q (s', ok a) k h g = g s' a refl
  bind_result_lem Q (s', throws e) k h g = h s' e refl

  pub awaiting_lem :
      {A B : Type 0} (Q : S × Result Exit B → Type 0) (call : Action S RepositoryError A)
      (k : A → Action S Exit B) (s : S)
      → ((s' : S) (e : RepositoryError) → call s ≡ (s', throws e) → Q (s', throws (thrown e)))
      → ((s' : S) (a : A) → call s ≡ (s', ok a) → Q (k a s'))
      → Q (awaiting call k s)
  unfolding awaiting
  awaiting_lem Q call k s h g = bind_result_lem Q (call s) k h g

  pub found_lem :
      {A B : Type 0} (Q : S × Result Exit B → Type 0) (code : RateSnapshotPersistenceCode)
      (k : A → Action S Exit B) (o : Option A) (s : S)
      → (o ≡ none → Q (s, throws (returned code)))
      → ((a : A) → o ≡ some a → Q (k a s))
      → Q (found code k o s)
  unfolding found
  found_lem Q code k none s h g = h refl
  found_lem Q code k (some a) s h g = g a refl

  pub holds_lem :
      {B : Type 0} (Q : S × Result Exit B → Type 0) (code : RateSnapshotPersistenceCode)
      (k : Action S Exit B) (b : Bool) (s : S)
      → (b ≡ false → Q (s, throws (returned code)))
      → (b ≡ true → Q (k s))
      → Q (holds code k b s)
  unfolding holds
  holds_lem Q code k false s h g = h refl
  holds_lem Q code k true s h g = g refl
