-- ===== src/Poller/Tests.antt =====
-- A poller that starts, waits for an interval and refreshes.
use stellar_core.Prelude.{◌*◌, ◌≤◌, ◌≡◌, refl, true, false, none, [], length, arith}
use stellar_core.Poller.{
  Poller, initial_poller, create_dashboard_poller, clear_timeout, cancel_from, cancel_timer,
  set_timeout, schedule, schedule_next, begin_refresh, refresh_now, settle, fire,
  handle_visibility_change, begin_run, start, show,
}
use stellar_core.Poller.Life.{elapse}
use stellar_core.Poller.Reach.{
  IsReachable, created, started, elapsed, fired, IsReachable-Inv, refreshes_bounded, RefreshesNext,
  next_refresh,
}
use stellar_core.Poller.Refine.{PolicyStep, Step-PolicyStep, fire_step}
use stellar_core.Poller.Timers.{IsSpaced, Inv}

abbrev started_poller : Poller
started_poller = start (initial_poller 60000 5 true)

started_poller-IsReachable : IsReachable started_poller
unfolding create_dashboard_poller
started_poller-IsReachable = started (created none 5 true refl)

abbrev refreshing_poller : Poller
refreshing_poller = fire (elapse started_poller 60000) 0

refreshing_poller-IsReachable : IsReachable refreshing_poller
unfolding start initial_poller begin_run schedule set_timeout cancel_timer cancel_from elapse
refreshing_poller-IsReachable =
    fired [] [] (record { handle = 0; due = 60005 }) (elapsed 60000 started_poller-IsReachable) refl
      (omega arith)

hidden_test : (settle (show refreshing_poller false)).armed ≡ []
unfolding start initial_poller begin_run schedule set_timeout cancel_timer cancel_from elapse fire
    refresh_now begin_refresh clear_timeout settle show schedule_next handle_visibility_change
hidden_test = refl

IsReachable-Inv_example : Inv refreshing_poller
IsReachable-Inv_example = IsReachable-Inv refreshing_poller refreshing_poller-IsReachable

refreshes_bounded_example :
    IsSpaced refreshing_poller.interval_ms refreshing_poller.last_refresh_at
      refreshing_poller.refreshes
    × (length refreshing_poller.refreshes * refreshing_poller.interval_ms ≤ refreshing_poller.now)
refreshes_bounded_example = refreshes_bounded refreshing_poller refreshing_poller-IsReachable

next_refresh_example : RefreshesNext started_poller
unfolding start initial_poller begin_run schedule set_timeout cancel_timer cancel_from
next_refresh_example = next_refresh started_poller started_poller-IsReachable refl refl refl

Step-PolicyStep_example : PolicyStep (elapse started_poller 60000) refreshing_poller.refreshes
unfolding start initial_poller begin_run schedule set_timeout cancel_timer cancel_from elapse
Step-PolicyStep_example =
    Step-PolicyStep (elapse started_poller 60000) (elapse started_poller 60000) refreshing_poller
      (elapsed 60000 started_poller-IsReachable)
      (fire_step [] [] (record { handle = 0; due = 60005 }) refl (omega arith))
