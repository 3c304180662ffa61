-- ===== src/Health/Policy.antt =====
-- lib/stellar/anchorHealth.ts: what one observation does to a state.
use stellar_core.Prelude.{ℕ, ◌≤◌, ◌≡◌, ◌≢◌, ◌↔◌, true, some, arith, if◌then◌else◌}
use stellar_core.Prelude.Int.{Date}
use stellar_core.Prelude.Text.{Text}
use stellar_core.Health.{
  AnchorStatus, unknown, live, degraded, down, AnchorFailureClass, transient, deterministic,
  unknown_class, AnchorHealthState, success, failure, AnchorHealthObservation,
  apply_anchor_health_observation,
}

-- How bad a published status is.
abbrev pub severity : AnchorStatus → ℕ
severity live = 0
severity degraded = 1
severity unknown = 2
severity down = 3

-- The published status is the status of the next state; it is flagged as changed exactly when it
-- differs from the old one, and then the transition time is the observation's, and otherwise the
-- old one. The time of the observation is recorded whatever the outcome.
pub apply_consistent :
    (s : AnchorHealthState) (o : AnchorHealthObservation)
    → let t = apply_anchor_health_observation s o in
      (t.next.status ≡ t.status)
      × ((t.status_changed ≡ true) ↔ (t.status ≢ s.status))
      × (t.next.last_transition_at
          ≡ (if t.status_changed then some o.occurred_at else s.last_transition_at))
      × (t.next.last_observed_at ≡ some o.occurred_at)
unfolding apply_anchor_health_observation
apply_consistent s o = ground arith

-- Evidence of UNKNOWN class moves the status exactly as TRANSIENT evidence does, and neither ever
-- publishes a worse status than DETERMINISTIC evidence at the same time.
pub escalation_order :
    (s : AnchorHealthState) (at_time : Date) (c d e : Text)
    → let observed = λ (class : AnchorFailureClass) (code : Text).
      (apply_anchor_health_observation s (record {
        outcome = failure;
        occurred_at = at_time;
        failure = some (record { failure_class = class; code = code });
      })).status in
      (observed unknown_class c ≡ observed transient d)
      × (severity (observed transient d) ≤ severity (observed deterministic e))
unfolding apply_anchor_health_observation
escalation_order s at_time c d e = ground arith

-- A DOWN anchor leaves DOWN by a success only, and a first failure of a LIVE anchor, whatever its
-- class and time, never publishes DOWN.
pub down_needs_evidence :
    (s : AnchorHealthState) (o : AnchorHealthObservation)
    → (s.status ≡ down → (apply_anchor_health_observation s o).status ≢ down → o.outcome ≡ success)
      × (s.status ≡ live
          → s.consecutive_failures ≡ 0
          → (apply_anchor_health_observation s o).status ≢ down)
unfolding apply_anchor_health_observation
down_needs_evidence s o = ground arith
