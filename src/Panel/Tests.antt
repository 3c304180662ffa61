-- ===== src/Panel/Tests.antt =====
-- Runs of a panel that shows a number.
use stellar_core.Prelude.{ℕ, ◌≡◌, refl, inl, true, none, some, [], ◌∷◌, length}
use stellar_core.Panel.{
  success, network_first, Coordinator, Visit, fetched, error_of, abort_with, new_coordinator,
  notify, subscribe, start_fetch, navigate_in, is_obsolete, accept, release, settle, reset,
}
use stellar_core.Panel.Lifecycle.{
  with_visit, was_aborted, IsReachable, created, entered, subscribed,
}
use stellar_core.Panel.Stale.{stale_fetch_is_ignored, reset_revives_aborted_fetch, navigate_all}

abbrev start : Coordinator ℕ
start = new_coordinator 60000 network_first none

abbrev subscribed_start : Coordinator ℕ
subscribed_start = subscribe start 7

abbrev first_visit : Visit
first_visit = record { visit_id = 1; controller = 0; now = 5 }

abbrev second_visit : Visit
second_visit = record { visit_id = 2; controller = 1; now = 9 }

abbrev entered_once : Coordinator ℕ
entered_once = (navigate_in subscribed_start 5).0

abbrev entered_twice : Coordinator ℕ
entered_twice = (navigate_in entered_once 9).0

entered_twice-IsReachable : IsReachable entered_twice (second_visit ∷ first_visit ∷ [])
unfolding navigate_in start_fetch with_visit subscribe new_coordinator
entered_twice-IsReachable = entered 9 (entered 5 (subscribed 7 (created 60000 network_first none)))

first_visit_aborted : was_aborted entered_twice first_visit ≡ true
unfolding was_aborted navigate_in start_fetch abort_with subscribe new_coordinator
first_visit_aborted = refl

entered_once_current : (entered_once.is_active ≡ true) × (1 ≡ entered_once.current_visit_id)
unfolding navigate_in start_fetch subscribe new_coordinator
entered_once_current = (refl, refl)

stale_fetch_is_ignored_example :
    ((settle entered_twice first_visit (fetched 3)).status ≡ entered_twice.status)
    × ((settle entered_twice first_visit (fetched 3)).panel_data ≡ entered_twice.panel_data)
    × ((settle entered_twice first_visit (fetched 3)).error_message ≡ entered_twice.error_message)
    × ((settle entered_twice first_visit (fetched 3)).last_fetched_at
        ≡ entered_twice.last_fetched_at)
    × ((settle entered_twice first_visit (fetched 3)).delivered ≡ entered_twice.delivered)
stale_fetch_is_ignored_example =
    stale_fetch_is_ignored entered_twice (second_visit ∷ []) [] first_visit (fetched 3)
      entered_twice-IsReachable (inl first_visit_aborted)

reset_revives_aborted_fetch_example :
    (was_aborted (navigate_all (reset entered_twice) (12 ∷ 20 ∷ [])) second_visit ≡ true)
    × ((settle
          (navigate_all (reset entered_twice) (12 ∷ 20 ∷ []))
          second_visit
          (fetched 3)).panel_data
        ≡ some 3)
    × ((settle (navigate_all (reset entered_twice) (12 ∷ 20 ∷ [])) second_visit (fetched 3)).status
        ≡ success)
    × ((settle
          (navigate_all (reset entered_twice) (12 ∷ 20 ∷ []))
          second_visit
          (fetched 3)).last_fetched_at
        ≡ some 9)
unfolding navigate_in start_fetch subscribe new_coordinator
reset_revives_aborted_fetch_example =
    reset_revives_aborted_fetch entered_twice second_visit 12 (20 ∷ []) 3 refl refl

notified_test : length (settle entered_once first_visit (error_of [])).delivered ≡ 2
unfolding settle navigate_in start_fetch is_obsolete accept release notify subscribe new_coordinator
notified_test = refl
