-- ===== src/Health/Stale.antt =====
-- lib/stellar/anchorHealth.ts: a failure that successes have answered still counts as evidence.
use stellar_core.Prelude.{◌≡◌, refl, some, List, [], ◌∷◌, ◌++◌, arith, if◌then◌else◌, ◌∙◌, ap}
use stellar_core.Prelude.Int.{ℤ, pos, ◌-ℤ◌, leb_ℤ, at}
use stellar_core.Prelude.Predicates.{All}
use stellar_core.Prelude.Text.{Text}
use stellar_core.Health.{
  live, degraded, success, AnchorFailureClass, transient, AnchorHealthState, failure,
  AnchorHealthObservation, sustained_window_ms, apply_anchor_health_observation, observe_all,
}
use stellar_core.Health.History.{successes_reach_live}

abbrev pub failure_with : ℤ → AnchorFailureClass → Text → AnchorHealthObservation
failure_with t class code = record {
  outcome = failure;
  occurred_at = at t;
  failure = some (record { failure_class = class; code = code });
}

apply-keeps_failure :
    (s : AnchorHealthState) (o : AnchorHealthObservation)
    → o.outcome ≡ success
    → ((apply_anchor_health_observation s o).next.last_failure_at ≡ s.last_failure_at)
      × ((apply_anchor_health_observation s o).next.consecutive_failures ≡ 0)
unfolding apply_anchor_health_observation
apply-keeps_failure s o f = ground arith

observe_all-keeps_failure :
    (s : AnchorHealthState) (o : AnchorHealthObservation) (os : List AnchorHealthObservation)
    → All (λ q. q.outcome ≡ success) (o ∷ os)
    → ((observe_all s (o ∷ os)).last_failure_at ≡ s.last_failure_at)
      × ((observe_all s (o ∷ os)).consecutive_failures ≡ 0)
unfolding observe_all
observe_all-keeps_failure s o [] (f, _) = apply-keeps_failure s o f
observe_all-keeps_failure s o (p ∷ os) (f, fs) =
    let (kept, _) = observe_all-keeps_failure (apply_anchor_health_observation s o).next p os fs in
    (kept ∙ (apply-keeps_failure s o f).0, (observe_all-keeps_failure _ p os fs).1)

observe_all-append :
    (s : AnchorHealthState) (os ps : List AnchorHealthObservation)
    → observe_all s (os ++ ps) ≡ observe_all (observe_all s os) ps
unfolding observe_all
observe_all-append s [] ps = refl
observe_all-append s (o ∷ os) ps =
    observe_all-append (apply_anchor_health_observation s o).next os ps

failure-records_time :
    (s : AnchorHealthState) (last : ℤ) (class : AnchorFailureClass) (code : Text)
    → (apply_anchor_health_observation s (failure_with last class code)).next.last_failure_at
      ≡ some (at last)
unfolding apply_anchor_health_observation
failure-records_time s last class code = ground arith

first_failure_status :
    (s : AnchorHealthState) (now last : ℤ) (code : Text)
    → s.status ≡ live
    → s.consecutive_failures ≡ 0
    → s.last_failure_at ≡ some (at last)
    → (apply_anchor_health_observation s (failure_with now transient code)).next.status
      ≡ (if leb_ℤ (pos sustained_window_ms) (now -ℤ last) then degraded else live)
unfolding apply_anchor_health_observation
first_failure_status s now last code l z f = ground arith

module _ (last now : ℤ) (class : AnchorFailureClass) (c d : Text) (o p : AnchorHealthObservation)
    (os : List AnchorHealthObservation) where
  -- A failure, two successes or more that publish LIVE again, and one TRANSIENT failure.
  abbrev pub failure_recovery_failure : List AnchorHealthObservation
  failure_recovery_failure =
      failure_with last class c ∷ ((o ∷ p ∷ os) ++ (failure_with now transient d ∷ []))

  -- From any state: after a failure and then two successes or more, a single TRANSIENT failure
  -- publishes DEGRADED when it comes 48 hours or more after that answered failure, and LIVE
  -- otherwise.
  pub answered_failure_degrades :
      (s : AnchorHealthState)
      → All (λ q. q.outcome ≡ success) (o ∷ p ∷ os)
      → (observe_all s failure_recovery_failure).status
        ≡ (if leb_ℤ (pos sustained_window_ms) (now -ℤ last) then degraded else live)
  unfolding observe_all
  answered_failure_degrades s h =
      let first = (apply_anchor_health_observation s (failure_with last class c)).next in
      let (kept, cleared) = observe_all-keeps_failure first o (p ∷ os) h in
      let alive = (successes_reach_live first o p os h).0 in
      ap (λ t. t.status) (observe_all-append first (o ∷ p ∷ os) (failure_with now transient d ∷ []))
      ∙ first_failure_status (observe_all first (o ∷ p ∷ os)) now last d alive cleared
          (kept ∙ failure-records_time s last class c)
