-- ===== src/Panel/Stale.antt =====
-- lib/dashboard/dashboardNavigationState.ts: which fetches update the view, and what `reset`
-- breaks.
use stellar_core.Prelude.{
  ℕ, ◌<◌, ◌≡◌, ◌⊎◌, inl, inr, true, false, none, some, List, ◌∷◌, ◌++◌, map, arith, Bool-cases, ◌+◌,
  [], length,
}
use stellar_core.Prelude.Predicates.{All-middle}
use stellar_core.Panel.{
  success, Coordinator, Visit, Settled, fetched, get_snapshot, notify, start_fetch, navigate_in,
  is_obsolete, accept, release, settle, reset,
}
use stellar_core.Panel.Lifecycle.{was_aborted, IsReachable, InFlight, reachable-Inv}

module _ {A : Type 0} where
  obsolete-settle :
      (s : Coordinator A) (v : Visit) (outcome : Settled A)
      → is_obsolete s v ≡ true
      → ((settle s v outcome).status ≡ s.status)
        × ((settle s v outcome).panel_data ≡ s.panel_data)
        × ((settle s v outcome).error_message ≡ s.error_message)
        × ((settle s v outcome).last_fetched_at ≡ s.last_fetched_at)
        × ((settle s v outcome).delivered ≡ s.delivered)
  unfolding settle is_obsolete release
  obsolete-settle s v outcome e = ground (arith, e)

  -- As long as `reset` is not called, a fetch that was aborted, or whose panel is not shown any
  -- more, or that is not of the latest visit, changes nothing that the panel shows and notifies
  -- nobody, however it settles.
  pub stale_fetch_is_ignored :
      (s : Coordinator A) (before after : List Visit) (v : Visit) (outcome : Settled A)
      → IsReachable s (before ++ (v ∷ after))
      → (was_aborted s v ≡ true) ⊎ (s.is_active ≡ false) ⊎ (v.visit_id < s.current_visit_id)
      → ((settle s v outcome).status ≡ s.status)
        × ((settle s v outcome).panel_data ≡ s.panel_data)
        × ((settle s v outcome).error_message ≡ s.error_message)
        × ((settle s v outcome).last_fetched_at ≡ s.last_fetched_at)
        × ((settle s v outcome).delivered ≡ s.delivered)
  unfolding is_obsolete
  stale_fetch_is_ignored s before after v outcome r stale =
      let inv = reachable-Inv s (before ++ (v ∷ after)) r in
      let flight = (All-middle (InFlight s) before after v inv.flights).0 in
      obsolete-settle s v outcome (elim (Bool-cases (is_obsolete s v)) [
        | inl e ↦ e
        | inr e ↦ let kept = flight.unaborted e in ground (arith, kept, stale)
      ])

  -- A fetch of the latest visit of a panel that is shown sets what the panel shows, and everybody
  -- who is subscribed is notified once with it.
  pub current_fetch_is_shown :
      (s : Coordinator A) (v : Visit) (a : A)
      → s.is_active ≡ true
      → v.visit_id ≡ s.current_visit_id
      → ((settle s v (fetched a)).status ≡ success)
        × ((settle s v (fetched a)).panel_data ≡ some a)
        × ((settle s v (fetched a)).error_message ≡ none)
        × ((settle s v (fetched a)).last_fetched_at ≡ some v.now)
        × ((settle s v (fetched a)).delivered
            ≡ s.delivered
              ++ map
                  (λ subscriber. (subscriber, get_snapshot (settle s v (fetched a))))
                  s.subscribers)
  unfolding settle is_obsolete release accept notify get_snapshot
  current_fetch_is_shown s v a active current = ground arith

  -- The visits that follow one another.
  abbrev pub navigate_all : Coordinator A → List ℕ → Coordinator A
  navigate_all s [] = s
  navigate_all s (now ∷ times) = navigate_all (navigate_in s now).0 times

  navigate_in-counts :
      (s : Coordinator A) (now : ℕ) (v : Visit)
      → ((navigate_in s now).0.is_active ≡ true)
        × ((navigate_in s now).0.current_visit_id ≡ s.current_visit_id + 1)
        × (was_aborted s v ≡ true → was_aborted (navigate_in s now).0 v ≡ true)
  unfolding navigate_in start_fetch was_aborted
  navigate_in-counts s now v = ground arith

  navigate_all-counts :
      (s : Coordinator A) (now : ℕ) (times : List ℕ) (v : Visit)
      → ((navigate_all s (now ∷ times)).is_active ≡ true)
        × ((navigate_all s (now ∷ times)).current_visit_id
            ≡ s.current_visit_id + length (now ∷ times))
        × (was_aborted s v ≡ true → was_aborted (navigate_all s (now ∷ times)) v ≡ true)
  navigate_all-counts s now [] v =
      let (shown, counted, kept) = navigate_in-counts s now v in
      (shown, omega (arith, counted), kept)
  navigate_all-counts s now (t ∷ times) v =
      let (_, counted, kept) = navigate_in-counts s now v in
      let (shown, later, kept') = navigate_all-counts (navigate_in s now).0 t times v in
      (shown, omega (arith, counted, later), λ h. kept' (kept h))

  reset-aborts :
      (s : Coordinator A) (v : Visit)
      → s.current_abort_controller ≡ some v.controller
      → ((reset s).current_visit_id ≡ 0) × (was_aborted (reset s) v ≡ true)
  unfolding reset was_aborted
  reset-aborts s v h = ground arith

  -- `reset` aborts the fetch that is in flight but counts the visits from 1 again: if that fetch is
  -- of visit n and n visits follow the reset, its result is shown as that of the latest one, with
  -- the time of the old visit, although it was aborted.
  pub reset_revives_aborted_fetch :
      (s : Coordinator A) (v : Visit) (now : ℕ) (times : List ℕ) (a : A)
      → s.current_abort_controller ≡ some v.controller
      → v.visit_id ≡ length (now ∷ times)
      → let again = navigate_all (reset s) (now ∷ times) in
        (was_aborted again v ≡ true)
        × ((settle again v (fetched a)).panel_data ≡ some a)
        × ((settle again v (fetched a)).status ≡ success)
        × ((settle again v (fetched a)).last_fetched_at ≡ some v.now)
  reset_revives_aborted_fetch s v now times a running visits =
      let (zeroed, stopped) = reset-aborts s v running in
      let (active, counted, kept) = navigate_all-counts (reset s) now times v in
      let (succeeded, shown, _, time, _) =
        current_fetch_is_shown (navigate_all (reset s) (now ∷ times)) v a active
          (omega (arith, zeroed, counted, visits)) in
      (kept stopped, shown, succeeded, time)
