-- ===== src/Engine/Counts.antt =====
-- lib/rates/rateEngine.ts: every pair of an anchor and a corridor is attempted once.
use stellar_core.Prelude.{
  ℕ, ◌+◌, ◌≡◌, List, if◌then◌else◌, length, refl, [], ◌∷◌, arith, length-append, true, false, ◌||◌,
  sym, ap, ◌∙◌, inl, inr, Bool-cases, Bool,
}
use stellar_core.Prelude.Predicates.{count_by, count_by-append, any}
use stellar_core.Prelude.Result.{ok, throws}
use stellar_core.Prelude.Text.{Text, text_eq, set_has, text_eq_iff}
use mathlib.Core.Path.{ap₂}
use stellar_core.Engine.{
  PersistedRateSnapshot, RateCandidate, RateEngineFailure, RateEngineSkippedSource,
  EngineDependencies, RateEngineResult,
}
use stellar_core.Engine.Attempts.{IsAbout, attempt-IsAbout}
use stellar_core.Engine.Run.{
  Attempt, key_of, candidate_key, EngineState, push, attempt, skip, begin_attempt, step, run_loop,
  initial_state, result_of, run_rate_engine,
}

-- The counts of what was reported for one key.
abbrev pub candidates_of : Text → List RateCandidate → ℕ
candidates_of key xs = count_by (λ c. text_eq (candidate_key c) key) xs

abbrev pub has_candidate : Text → List RateCandidate → Bool
has_candidate key xs = any (λ c. text_eq (candidate_key c) key) xs

abbrev pub snapshots_of : Text → List PersistedRateSnapshot → ℕ
snapshots_of key xs = count_by (λ s. text_eq (key_of s.anchor_slug s.corridor_slug) key) xs

abbrev pub failures_of : Text → List RateEngineFailure → ℕ
failures_of key xs = count_by (λ f. text_eq (key_of f.anchor_slug f.corridor_slug) key) xs

abbrev pub skips_of : Text → List RateEngineSkippedSource → ℕ
skips_of key xs = count_by (λ s. text_eq (key_of s.anchor_slug s.corridor_slug) key) xs

-- Equal keys are seen together.
same_seen :
    (k : Text) (c : RateCandidate) (seen : List Text)
    → text_eq (candidate_key c) k ≡ true
    → set_has k seen ≡ set_has (candidate_key c) seen
same_seen k c seen e = ap (λ x. set_has x seen) (sym ((text_eq_iff (candidate_key c) k).0 e))

set_has-cons :
    (k key : Text) (seen : List Text) → set_has k (key ∷ seen) ≡ (text_eq key k || set_has k seen)
unfolding set_has
set_has-cons k key seen = refl

abbrev pub IsReportOf : List RateCandidate → RateEngineResult → Type 0
IsReportOf cs r =
    ((k : Text)
      → (snapshots_of k r.snapshots + failures_of k r.failures
          ≡ (if has_candidate k cs then 1 else 0))
        × (snapshots_of k r.snapshots + failures_of k r.failures + skips_of k r.skipped_sources
            ≡ candidates_of k cs))
    × (r.total_candidates ≡ r.total_attempted + r.skipped)
    × (r.total_attempted ≡ r.succeeded + r.failed)

module _ {S : Type 0} where
  push_lem :
      (k : Text) (st : EngineState S) (c : RateCandidate) (x : Attempt S)
      → IsAbout c x
      → let after = push st x in
        (snapshots_of k after.snapshots + failures_of k after.failures
          ≡ snapshots_of k st.snapshots
            + failures_of k st.failures
            + (if text_eq (candidate_key c) k then 1 else 0))
        × (after.seen ≡ st.seen)
        × (after.skipped_sources ≡ st.skipped_sources)
        × (after.total_attempted ≡ st.total_attempted)
        × (length after.snapshots + length after.failures
            ≡ length st.snapshots + length st.failures + 1)
  unfolding push candidate_key
  push_lem k st c (s, ok snapshot) h = (
    omega (
      arith,
      count_by-append (λ x. text_eq (key_of x.anchor_slug x.corridor_slug) k) st.snapshots
          (snapshot ∷ []),
      ap₂ {C = ℕ} (λ a b. if text_eq (key_of a b) k then 1 else 0) h.0 h.1,
    ),
    refl,
    refl,
    refl,
    omega (arith, length-append st.snapshots (snapshot ∷ [])),
  )
  push_lem k st c (s, throws f) h = (
    omega (
      arith,
      count_by-append (λ x. text_eq (key_of x.anchor_slug x.corridor_slug) k) st.failures (f ∷ []),
      ap₂ {C = ℕ} (λ a b. if text_eq (key_of a b) k then 1 else 0) h.0 h.1,
    ),
    refl,
    refl,
    refl,
    omega (arith, length-append st.failures (f ∷ [])),
  )

  abbrev pub attempts_of : Text → EngineState S → ℕ
  attempts_of k st = snapshots_of k st.snapshots + failures_of k st.failures

  abbrev pub reports_of : Text → EngineState S → ℕ
  reports_of k st = attempts_of k st + skips_of k st.skipped_sources

  -- The invariant of the loop.
  record IsTallied (k : Text) (st : EngineState S) : Type 0 where
    attempted_once : attempts_of k st ≡ (if set_has k st.seen then 1 else 0)
    attempts_total : st.total_attempted ≡ length st.snapshots + length st.failures

  -- What one round does to the counts.
  record Advances (k : Text) (st : EngineState S) (c : RateCandidate) (after : EngineState S)
      : Type 0 where
    tallied : IsTallied k after
    seen_more : set_has k after.seen ≡ (set_has k st.seen || text_eq (candidate_key c) k)
    reported_more :
        reports_of k after ≡ reports_of k st + (if text_eq (candidate_key c) k then 1 else 0)
    round_counted :
        after.total_attempted + length after.skipped_sources
        ≡ st.total_attempted + length st.skipped_sources + 1

  skip-Advances :
      (k : Text) (st : EngineState S) (c : RateCandidate)
      → set_has (candidate_key c) st.seen ≡ true
      → IsTallied k st
      → Advances k st c (skip st c)
  unfolding skip candidate_key
  skip-Advances k st c e h = record {
    tallied = record { attempted_once = h.attempted_once; attempts_total = h.attempts_total };
    seen_more = elim (Bool-cases (text_eq (candidate_key c) k)) [
      | inl t ↦ ground (arith, e, t, same_seen k c st.seen t)
      | inr t ↦ ground (arith, t)
    ];
    reported_more = omega (
      arith,
      count_by-append (λ x. text_eq (key_of x.anchor_slug x.corridor_slug) k) st.skipped_sources
          (record { anchor_slug = c.anchor_slug; corridor_slug = c.corridor.slug } ∷ []),
    );
    round_counted = omega (
      arith,
      length-append st.skipped_sources
          (record { anchor_slug = c.anchor_slug; corridor_slug = c.corridor.slug } ∷ []),
    );
  }

  attempt-Advances :
      (d : EngineDependencies S) (k : Text) (st : EngineState S) (c : RateCandidate)
      → set_has (candidate_key c) st.seen ≡ false
      → IsTallied k st
      → Advances k st c (push (begin_attempt st c) (attempt d c st.world))
  unfolding begin_attempt
  attempt-Advances d k st c e h =
      let p =
        push_lem k (begin_attempt st c) c (attempt d c st.world) (attempt-IsAbout d c st.world) in
      let after = push (begin_attempt st c) (attempt d c st.world) in
      let seen_after : set_has k after.seen ≡ (text_eq (candidate_key c) k || set_has k st.seen) =
        ap (λ x. set_has k x) p.1 ∙ set_has-cons k (candidate_key c) st.seen in
      record {
        tallied = record {
          attempted_once = elim (Bool-cases (text_eq (candidate_key c) k)) [
            | inl t ↦
                ground (arith, e, t, same_seen k c st.seen t, seen_after, p.0, h.attempted_once)
            | inr t ↦ ground (arith, t, seen_after, p.0, h.attempted_once)
          ];
          attempts_total = omega (arith, h.attempts_total, p.3, p.4);
        };
        seen_more = ground (arith, seen_after);
        reported_more = omega (arith, p.0, ap (λ x. skips_of k x) p.2);
        round_counted = omega (arith, p.3, ap (λ x. length x) p.2);
      }

  step-Advances :
      (d : EngineDependencies S) (k : Text) (st : EngineState S) (c : RateCandidate)
      → IsTallied k st
      → Advances k st c (step d st c)
  unfolding step
  step-Advances d k st c h = elim (Bool-cases (set_has (candidate_key c) st.seen)) [
    | inl e ↦ rw e (skip-Advances k st c e h)
    | inr e ↦ rw e (attempt-Advances d k st c e h)
  ]

  run_loop_lem :
      (d : EngineDependencies S) (k : Text) (cs : List RateCandidate) (st : EngineState S)
      → IsTallied k st
      → let after = run_loop d cs st in
        IsTallied k after
        × (set_has k after.seen ≡ (set_has k st.seen || has_candidate k cs))
        × (reports_of k after ≡ reports_of k st + candidates_of k cs)
        × (after.total_attempted + length after.skipped_sources
            ≡ st.total_attempted + length st.skipped_sources + length cs)
  unfolding run_loop
  run_loop_lem d k [] st h = (h, ground arith, omega arith, omega arith)
  run_loop_lem d k (c ∷ cs) st h =
      let a = step-Advances d k st c h in
      let r = run_loop_lem d k cs (step d st c) a.tallied in
      (
        r.0,
        ground (arith, r.1, a.seen_more),
        omega (arith, r.2, a.reported_more),
        omega (arith, r.3, a.round_counted),
      )

  -- Whatever the quotes, the clock and the repository do, each pair of an anchor and a corridor
  -- among the candidates is attempted once: one snapshot or one failure reports on it, and every
  -- further candidate for it is a skipped source. The totals of the result add up.
  pub run_rate_engine_lem :
      (d : EngineDependencies S) (cs : List RateCandidate) (s : S)
      → IsReportOf cs (run_rate_engine d cs s).1
  unfolding run_rate_engine result_of initial_state set_has
  run_rate_engine_lem d cs s =
      let start : (k : Text) → IsTallied k (initial_state s) =
        λ k. record { attempted_once = refl; attempts_total = refl } in
      let r = λ (k : Text). run_loop_lem d k cs (initial_state s) (start k) in
      (
        (λ k. (ground (arith, (r k).0.attempted_once, (r k).1), omega (arith, (r k).2))),
        omega (arith, (r []).3),
        omega (arith, (r []).0.attempts_total),
      )
