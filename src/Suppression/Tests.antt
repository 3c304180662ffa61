-- ===== src/Suppression/Tests.antt =====
-- Runs of the suppression counter.
use mathlib.Core.Option
use stellar_core.Prelude.{ℕ, ◌*◌, ◌≡◌, none, some, [], ◌∷◌}
use stellar_core.Prelude.Int.{pos, Date, at}
use stellar_core.Suppression.{
  active, suppressed, SuppressionCounterState, reactivate_permanent_suppression, advance_all,
  third_failure_suppresses,
}

abbrev day : ℕ → Date
day n = at (pos (n * 86400000))

third_failure_suppresses_example :
    let s : SuppressionCounterState = record {
      state = suppressed;
      consecutive_failures = 3;
      suppressed_at = some (day 3);
    } in
    (advance_all none (day 1 ∷ day 2 ∷ day 3 ∷ day 4 ∷ []) ≡ some s)
    × (advance_all (some reactivate_permanent_suppression) (day 1 ∷ day 2 ∷ day 3 ∷ day 4 ∷ [])
        ≡ some s)
    × (Option.map (λ s. s.state) (advance_all none (day 1 ∷ day 2 ∷ [])) ≡ some active)
third_failure_suppresses_example = third_failure_suppresses (day 1) (day 2) (day 3) (day 4 ∷ [])
