-- ===== src/Engine/Attempts.antt =====
-- lib/rates/rateEngine.ts: an attempt ends with a report on its own candidate.
use stellar_core.Prelude.{◌≡◌, refl, ◌∙◌, Option, none, some}
use stellar_core.Prelude.Int.{Date}
use stellar_core.Prelude.Result.{Result, ok, throws, Ends}
use stellar_core.Prelude.Text.{Text}
use stellar_core.Engine.{
  NormalizedRateObservation, PersistedRateSnapshot, RateSnapshotPersistenceCode, anchor_not_found,
  corridor_not_found, association_not_found, run_not_found, RepositoryError, Action,
  RateSnapshotRepository, RateCandidate, EngineDependencies,
}
use stellar_core.Engine.Run.{
  Attempt, engine_failure, normalization_input, after_persist, observation_of, after_normalize,
  after_clock, after_quote, attempt,
}
use stellar_core.Engine.Snapshot.{
  returned, Exit, thrown, present, input_of, check_run, persist_body, catching,
  persist_rate_snapshot, snapshot_of,
}
use stellar_core.Engine.Stores.{awaiting_lem, found_lem, holds_lem}
use stellar_core.Normalize.{Normalized, NormalizeIndicativeRateInput, NormalizedRateQuote}
use stellar_core.Normalize.Arithmetic.{normalize_indicative_rate}
use stellar_core.Normalize.Observation.{normalize_indicative_rate-Ends}
use stellar_core.Normalize.Observed.{IsPermanentCode, IsObservationOf}
use stellar_core.Quote.{Sep38IndicativePrice}

-- An attempt reports on its own candidate.
abbrev pub IsAbout : {S : Type 0} → RateCandidate → Attempt S → Type 0
IsAbout c (s, ok snapshot) =
    (snapshot.anchor_slug ≡ c.anchor_slug) × (snapshot.corridor_slug ≡ c.corridor.slug)
IsAbout c (s, throws f) = (f.anchor_slug ≡ c.anchor_slug) × (f.corridor_slug ≡ c.corridor.slug)

module _ {S : Type 0} where
  -- A stored snapshot carries the slugs of its observation, whatever the repository does.
  abbrev HasSlugs :
      {E : Type 0} → NormalizedRateObservation → S × Result E PersistedRateSnapshot → Type 0
  HasSlugs o (s, ok snapshot) =
      (snapshot.anchor_slug ≡ o.quoted.anchor_slug)
      × (snapshot.corridor_slug ≡ o.quoted.corridor_slug)
  HasSlugs o (s, throws e) = Unit

  check_run_any :
      {B : Type 0} (Q : S × Result Exit B → Type 0) (id : Option Text)
      (find : Option (Text → Action S RepositoryError (Option Text))) (k : Action S Exit B) (s : S)
      → ((s' : S) (e : RepositoryError) → Q (s', throws (thrown e)))
      → ((s' : S) → Q (s', throws (returned run_not_found)))
      → ((s' : S) → Q (k s'))
      → Q (check_run id find k s)
  unfolding check_run
  check_run_any Q none find k s h g l = l s
  check_run_any Q (some id) none k s h g l = l s
  check_run_any Q (some id) (some find) k s h g l =
      awaiting_lem Q (find id) _ s (λ s' e _. h s' e)
        (λ s' run _. found_lem Q run_not_found (λ _. k) run s' (λ _. g s') (λ _ _. l s'))

  persist_body-HasSlugs :
      (r : RateSnapshotRepository S) (o : NormalizedRateObservation) (s : S)
      → HasSlugs o (persist_body r o s)
  unfolding persist_body snapshot_of
  persist_body-HasSlugs r o s =
      let Q : S × Result Exit PersistedRateSnapshot → Type 0 = HasSlugs o in
      awaiting_lem Q (r.find_anchor_by_slug o.quoted.anchor_slug) _ s (λ _ _ _. tt)
        (λ s1 a _.
          found_lem Q anchor_not_found _ a s1 (λ _. tt)
            (λ anchor_id _.
              awaiting_lem Q (r.find_corridor_by_slug o.quoted.corridor_slug) _ s1 (λ _ _ _. tt)
                (λ s2 c _.
                  found_lem Q corridor_not_found _ c s2 (λ _. tt)
                    (λ corridor_id _.
                      awaiting_lem Q (r.has_association anchor_id corridor_id) _ s2 (λ _ _ _. tt)
                        (λ s3 b _.
                          holds_lem Q association_not_found _ b s3 (λ _. tt)
                            (λ _.
                              check_run_any Q (present o.capture_run_id) r.find_run_by_id _ s3
                                (λ _ _. tt) (λ _. tt)
                                (λ s4.
                                  awaiting_lem Q
                                    (r.create_snapshot (input_of o anchor_id corridor_id)) _ s4
                                    (λ _ _ _. tt) (λ _ _ _. (refl, refl)))))))))

  catching-HasSlugs :
      (o : NormalizedRateObservation) (x : S × Result Exit PersistedRateSnapshot)
      → HasSlugs o x
      → HasSlugs o (catching x)
  unfolding catching
  catching-HasSlugs o (s, ok snapshot) h = h
  catching-HasSlugs o (s, throws e) h = tt

  persist-HasSlugs :
      (r : RateSnapshotRepository S) (o : NormalizedRateObservation) (s : S)
      → HasSlugs o (persist_rate_snapshot r o s)
  unfolding persist_rate_snapshot
  persist-HasSlugs r o s = catching-HasSlugs o (persist_body r o s) (persist_body-HasSlugs r o s)

  after_persist-IsAbout :
      (o : NormalizedRateObservation) (c : RateCandidate)
      (x : S × Result RateSnapshotPersistenceCode PersistedRateSnapshot)
      → o.quoted.anchor_slug ≡ c.anchor_slug
      → o.quoted.corridor_slug ≡ c.corridor.slug
      → HasSlugs o x
      → IsAbout c (after_persist c x)
  unfolding after_persist engine_failure
  after_persist-IsAbout o c (s, ok snapshot) e f h = (h.0 ∙ e, h.1 ∙ f)
  after_persist-IsAbout o c (s, throws code) e f h = (refl, refl)

  after_normalize-IsAbout :
      (d : EngineDependencies S) (c : RateCandidate) (i : NormalizeIndicativeRateInput) (s : S)
      (x : Normalized NormalizedRateQuote)
      → i.anchor_slug ≡ c.anchor_slug
      → i.corridor.slug ≡ c.corridor.slug
      → Ends (IsObservationOf d.parse_date i) IsPermanentCode x
      → IsAbout c (after_normalize d c s x)
  unfolding after_normalize engine_failure observation_of
  after_normalize-IsAbout d c i s (ok n) e f h =
      after_persist-IsAbout (observation_of d c n) c _ (h.same_anchor ∙ e) (h.same_corridor ∙ f)
        (persist-HasSlugs d.repository (observation_of d c n) s)
  after_normalize-IsAbout d c i s (throws code) e f h = (refl, refl)

  after_clock-IsAbout :
      (d : EngineDependencies S) (c : RateCandidate) (price : Sep38IndicativePrice)
      (x : S × Option Date)
      → IsAbout c (after_clock d c price x)
  unfolding after_clock engine_failure normalization_input
  after_clock-IsAbout d c price (s, none) = (refl, refl)
  after_clock-IsAbout d c price (s, some now) =
      let i = normalization_input c price now in
      after_normalize-IsAbout d c i s (normalize_indicative_rate d.parse_date i) refl refl
        (normalize_indicative_rate-Ends d.parse_date i)

  after_quote-IsAbout :
      (d : EngineDependencies S) (c : RateCandidate) (x : S × Option Sep38IndicativePrice)
      → IsAbout c (after_quote d c x)
  unfolding after_quote engine_failure
  after_quote-IsAbout d c (s, none) = (refl, refl)
  after_quote-IsAbout d c (s, some price) = after_clock-IsAbout d c price (d.now s)

  pub attempt-IsAbout :
      (d : EngineDependencies S) (c : RateCandidate) (s : S) → IsAbout c (attempt d c s)
  unfolding attempt
  attempt-IsAbout d c s = after_quote-IsAbout d c (d.quote_of c s)
