-- ===== src/Health/History.antt =====
-- lib/stellar/anchorHealth.ts: what holds of a state after any sequence of observations.
use stellar_core.Prelude.{◌+◌, ◌≤◌, ◌≡◌, ◌↔◌, ◌⊎◌, none, List, [], ◌∷◌, arith, length}
use stellar_core.Prelude.Predicates.{All}
use stellar_core.Prelude.Text.{Text}
use stellar_core.Health.{
  unknown, live, degraded, down, AnchorHealthState, success, failure, AnchorHealthObservation,
  apply_anchor_health_observation, initial_anchor_health_state, observe_all,
}

-- The evidence that stands behind a published status.
pub record Inv (s : AnchorHealthState) : Type 0 where
  pub one_streak : (s.consecutive_failures ≡ 0) ⊎ (s.consecutive_successes ≡ 0)
  pub unknown_few :
      s.status ≡ unknown → (s.consecutive_failures ≤ 2) × (s.consecutive_successes ≡ 0)
  pub live_few : s.status ≡ live → s.consecutive_failures ≤ 1
  pub degraded_few :
      s.status ≡ degraded → (s.consecutive_failures ≤ 2) × (s.consecutive_successes ≤ 1)
  pub down_failed : s.status ≡ down → (1 ≤ s.consecutive_failures) × (s.consecutive_successes ≡ 0)
  pub failure_class_kept : (s.consecutive_failures ≡ 0) ↔ (s.last_failure_class ≡ none)

pub initial-Inv : (slug : Text) → Inv (initial_anchor_health_state slug)
unfolding initial_anchor_health_state
initial-Inv slug = ground arith

pub apply-Inv :
    (s : AnchorHealthState) (o : AnchorHealthObservation)
    → Inv s
    → Inv (apply_anchor_health_observation s o).next
unfolding apply_anchor_health_observation
apply-Inv s o h = ground arith

observe_all-Inv :
    (s : AnchorHealthState) (os : List AnchorHealthObservation) → Inv s → Inv (observe_all s os)
unfolding observe_all
observe_all-Inv s [] h = h
observe_all-Inv s (o ∷ os) h =
    observe_all-Inv (apply_anchor_health_observation s o).next os (apply-Inv s o h)

-- Whatever observations follow a fresh start, the state has the evidence `Inv` behind its status:
-- failures and successes are never counted together, an UNKNOWN anchor has at most two failures
-- and no success, a LIVE one at most one failure, a DEGRADED one at most two failures and one
-- success, a DOWN one at least one failure and no success, and a failure class is recorded
-- exactly while failures are counted.
pub history-Inv :
    (slug : Text) (os : List AnchorHealthObservation)
    → Inv (observe_all (initial_anchor_health_state slug) os)
history-Inv slug os = observe_all-Inv (initial_anchor_health_state slug) os (initial-Inv slug)

apply-fails :
    (s : AnchorHealthState) (o : AnchorHealthObservation)
    → o.outcome ≡ failure
    → ((apply_anchor_health_observation s o).next.consecutive_failures ≡ s.consecutive_failures + 1)
      × (2 ≤ s.consecutive_failures → (apply_anchor_health_observation s o).next.status ≡ down)
      × (s.status ≡ down → (apply_anchor_health_observation s o).next.status ≡ down)
unfolding apply_anchor_health_observation
apply-fails s o f = ground arith

observe_all-down :
    (s : AnchorHealthState) (os : List AnchorHealthObservation)
    → All (λ o. o.outcome ≡ failure) os
    → s.status ≡ down
    → (observe_all s os).status ≡ down
unfolding observe_all
observe_all-down s [] f d = d
observe_all-down s (o ∷ os) (f, fs) d =
    observe_all-down (apply_anchor_health_observation s o).next os fs ((apply-fails s o f).2 d)

observe_all-failures :
    (s : AnchorHealthState) (os : List AnchorHealthObservation)
    → All (λ o. o.outcome ≡ failure) os
    → 1 ≤ length os
    → 3 ≤ s.consecutive_failures + length os
    → (observe_all s os).status ≡ down
unfolding observe_all
observe_all-failures s [] f n h = absurd (omega arith)
observe_all-failures s (o ∷ []) (f, _) n h = (apply-fails s o f).1 (omega arith)
observe_all-failures s (o ∷ p ∷ os) (f, fs) n h =
    observe_all-failures (apply_anchor_health_observation s o).next (p ∷ os) fs (omega arith)
      (omega (arith, (apply-fails s o f).0))

-- Three or more failures in a row publish DOWN, from any state, whatever their classes and times.
pub failures_reach_down :
    (s : AnchorHealthState) (os : List AnchorHealthObservation)
    → All (λ o. o.outcome ≡ failure) os
    → 3 ≤ length os
    → (observe_all s os).status ≡ down
failures_reach_down s os f h = observe_all-failures s os f (omega arith) (omega arith)

apply-succeeds :
    (s : AnchorHealthState) (o : AnchorHealthObservation)
    → o.outcome ≡ success
    → ((apply_anchor_health_observation s o).next.consecutive_successes
        ≡ s.consecutive_successes + 1)
      × (1 ≤ s.consecutive_successes → (apply_anchor_health_observation s o).next.status ≡ live)
unfolding apply_anchor_health_observation
apply-succeeds s o f = ground arith

observe_all-live :
    (s : AnchorHealthState) (os : List AnchorHealthObservation)
    → All (λ q. q.outcome ≡ success) os
    → 1 ≤ s.consecutive_successes
    → s.status ≡ live
    → (observe_all s os).status ≡ live
unfolding observe_all
observe_all-live s [] f c l = l
observe_all-live s (o ∷ os) (f, fs) c l =
    let (counted, alive) = apply-succeeds s o f in
    observe_all-live (apply_anchor_health_observation s o).next os fs (omega (arith, counted))
      (alive c)

first_recovery :
    (s : AnchorHealthState) (o : AnchorHealthObservation)
    → o.outcome ≡ success
    → Inv s
    → s.status ≡ down
    → (apply_anchor_health_observation s o).status ≡ degraded
unfolding apply_anchor_health_observation
first_recovery s o f h d = ground arith

-- Two or more successes in a row publish LIVE, from any state. One success is not enough for an
-- anchor that is DOWN in a state with the evidence of `Inv`: it publishes DEGRADED.
pub successes_reach_live :
    (s : AnchorHealthState) (o p : AnchorHealthObservation) (os : List AnchorHealthObservation)
    → All (λ q. q.outcome ≡ success) (o ∷ p ∷ os)
    → ((observe_all s (o ∷ p ∷ os)).status ≡ live)
      × (Inv s → s.status ≡ down → (apply_anchor_health_observation s o).status ≡ degraded)
unfolding observe_all
successes_reach_live s o p os (f, (g, fs)) =
    let (counted, _) = apply-succeeds s o f in
    let (counted', alive) = apply-succeeds (apply_anchor_health_observation s o).next p g in
    (
      observe_all-live _ os fs (omega (arith, counted')) (alive (omega (arith, counted))),
      first_recovery s o f,
    )
