-- ===== src/Health/Tests.antt =====
-- Runs of the anchor health state machine at concrete observations.
use stellar_core.Prelude.{ℕ, ◌≡◌, refl, ◌≢◌, true, false, none, some, [], ◌∷◌, arith, if◌then◌else◌}
use stellar_core.Prelude.Int.{pos, ◌-ℤ◌, at, leb_ℤ}
use stellar_core.Prelude.Text.{codes}
use stellar_core.Errors.{http_failure, ThrownObject}
use stellar_core.Health.{
  live, degraded, down, transient, AnchorHealthState, success, AnchorHealthObservation,
  initial_anchor_health_state, apply_anchor_health_observation, observe_all, failure,
  sustained_window_ms,
}
use stellar_core.Health.History.{Inv, history-Inv, failures_reach_down, successes_reach_live}
use stellar_core.Health.Policy.{down_needs_evidence}
use stellar_core.Health.Stale.{failure_recovery_failure, answered_failure_degrades}

abbrev start : AnchorHealthState
start = record {
  anchor_slug = codes "zeam";
  status = live;
  consecutive_failures = 0;
  last_failure_class = none;
  last_failure_code = none;
  consecutive_successes = 4;
  last_observed_at = some (at (pos 200000000));
  last_success_at = some (at (pos 200000000));
  last_failure_at = some (at (pos 100));
  last_transition_at = none;
}

abbrev failed_at : ℕ → AnchorHealthObservation
failed_at t = record {
  outcome = failure;
  occurred_at = at (pos t);
  failure = some (record { failure_class = transient; code = codes "TIMEOUT" });
}

abbrev succeeded_at : ℕ → AnchorHealthObservation
succeeded_at t = record { outcome = success; occurred_at = at (pos t); failure = none }

abbrev gone_page : ThrownObject
gone_page = record {
  is_error = true;
  is_abort = false;
  code = some http_failure;
  status = some 404;
  retry_after = none;
}

down_needs_evidence_example :
    (start.status ≡ down
      → (apply_anchor_health_observation start (failed_at 7)).status ≢ down
      → failure ≡ success)
    × (start.status ≡ live
        → start.consecutive_failures ≡ 0
        → (apply_anchor_health_observation start (failed_at 7)).status ≢ down)
down_needs_evidence_example = down_needs_evidence start (failed_at 7)

answered_failure_degrades_example :
    (observe_all start (
      failure_recovery_failure
        (pos 100)
        (pos 300000000)
        transient
        (codes "TIMEOUT")
        (codes "TIMEOUT")
        (succeeded_at 1000)
        (succeeded_at 2000)
        [])).status
    ≡ (if leb_ℤ (pos sustained_window_ms) (pos 300000000 -ℤ pos 100) then degraded else live)
answered_failure_degrades_example =
    answered_failure_degrades (pos 100) (pos 300000000) transient (codes "TIMEOUT")
      (codes "TIMEOUT") (succeeded_at 1000) (succeeded_at 2000) [] start (refl, (refl, tt))

history-Inv_example :
    Inv (observe_all (initial_anchor_health_state []) (failed_at 1 ∷ succeeded_at 2 ∷ []))
history-Inv_example = history-Inv [] (failed_at 1 ∷ succeeded_at 2 ∷ [])

failures_reach_down_example :
    (observe_all start (failed_at 1 ∷ failed_at 2 ∷ failed_at 3 ∷ [])).status ≡ down
failures_reach_down_example =
    failures_reach_down start (failed_at 1 ∷ failed_at 2 ∷ failed_at 3 ∷ [])
      (refl, (refl, (refl, tt))) (omega arith)

successes_reach_live_example :
    ((observe_all start (succeeded_at 1 ∷ succeeded_at 2 ∷ [])).status ≡ live)
    × (Inv start
        → start.status ≡ down
        → (apply_anchor_health_observation start (succeeded_at 1)).status ≡ degraded)
successes_reach_live_example =
    successes_reach_live start (succeeded_at 1) (succeeded_at 2) [] (refl, (refl, tt))

outage_and_recovery :
    (observe_all
      (initial_anchor_health_state [])
      (succeeded_at 1 ∷ failed_at 2 ∷ failed_at 3 ∷ failed_at 4 ∷ succeeded_at 5 ∷ [])).status
    ≡ degraded
unfolding observe_all initial_anchor_health_state apply_anchor_health_observation
outage_and_recovery = refl
