-- ===== src/Poller.antt =====
-- lib/dashboard/polling.ts: the refresh timer of the dashboard. `Poller` has the variables of the
-- closure and, below them, the injected clock and visibility with what the poller has asked of them.
-- Times are natural numbers of milliseconds; `Math.max(0, x - y)` is a subtraction that stops at 0.
mod Timers
mod Life
mod Events
mod Reach
mod Refine
mod Tests
use stellar_core.Prelude.{
  ℕ, ◌+◌, ◌-◌, Bool, true, false, not, ◌||◌, Option, none, some, List, [], ◌∷◌, ◌++◌, leb, ◌==◌,
  if◌then◌else◌,
}
use stellar_core.Prelude.Predicates.{filter_by}

abbrev pub dashboard_refresh_interval_ms : ℕ
dashboard_refresh_interval_ms = 60000

-- A timer that `clock.setTimeout` has set.
pub record Armed : Type 0 where
  pub handle : ℕ
  pub due : ℕ

pub record Poller : Type 0 where
  pub interval_ms : ℕ
  pub running : Bool
  pub timer : Option ℕ
  pub subscribed : Bool
  pub refreshing : Bool
  pub last_refresh_at : ℕ
  pub now : ℕ
  pub visible : Bool
  pub armed : List Armed
  pub next_handle : ℕ
  pub listeners : ℕ
  pub in_flight : ℕ
  pub refreshes : List ℕ

abbrev pub or_default : Option ℕ → ℕ
or_default none = dashboard_refresh_interval_ms
or_default (some ms) = ms

unfoldable pub initial_poller : ℕ → ℕ → Bool → Poller
initial_poller interval_ms now visible = record {
  interval_ms = interval_ms;
  running = false;
  timer = none;
  subscribed = false;
  refreshing = false;
  last_refresh_at = 0;
  now = now;
  visible = visible;
  armed = [];
  next_handle = 0;
  listeners = 0;
  in_flight = 0;
  refreshes = [];
}

-- `createDashboardPoller`, where `none` is the RangeError.
unfoldable pub create_dashboard_poller : Option ℕ → ℕ → Bool → Option Poller
create_dashboard_poller interval_ms now visible =
    if or_default interval_ms == 0
    then none
    else some (initial_poller (or_default interval_ms) now visible)

unfoldable pub clear_timeout : ℕ → List Armed → List Armed
clear_timeout handle armed = filter_by (λ a. not (a.handle == handle)) armed

unfoldable pub cancel_from : Poller → Option ℕ → Poller
unfolding clear_timeout
cancel_from s none = s
cancel_from s (some handle) = record s { timer = none; armed = clear_timeout handle s.armed }

unfoldable pub cancel_timer : Poller → Poller
cancel_timer s = cancel_from s s.timer

-- `timer = clock.setTimeout(…)`.
unfoldable pub set_timeout : Poller → ℕ → Poller
set_timeout s delay_ms = record s {
  timer = some s.next_handle;
  armed = s.armed ++ (record { handle = s.next_handle; due = s.now + delay_ms } ∷ []);
  next_handle = s.next_handle + 1;
}

unfoldable pub schedule : Poller → ℕ → Poller
schedule s delay_ms = set_timeout (cancel_timer s) delay_ms

-- `Math.max(0, intervalMs - (clock.now() - lastRefreshAt))`.
unfoldable pub remaining : Poller → ℕ
remaining s = s.interval_ms + s.last_refresh_at - s.now

unfoldable pub schedule_next : Poller → Poller
schedule_next s =
    if not s.running || not s.visible then cancel_timer s else schedule s (remaining s)

-- The call of `options.refresh`, which is then in flight.
unfoldable pub begin_refresh : Poller → Poller
begin_refresh s = record s {
  refreshing = true;
  last_refresh_at = s.now;
  in_flight = s.in_flight + 1;
  refreshes = s.now ∷ s.refreshes;
}

-- `refreshNow` up to its `await`.
unfoldable pub refresh_now : Poller → Poller
refresh_now s =
    let c = cancel_timer s in
    if not c.running || not c.visible || c.refreshing then c else begin_refresh c

-- `refreshNow` from the end of its `await` on, whether the refresh failed or not.
unfoldable pub settle : Poller → Poller
settle s = schedule_next (record s { refreshing = false; in_flight = s.in_flight - 1 })

-- The callback of a timer, which the clock has taken off its list.
unfoldable pub fire : Poller → ℕ → Poller
fire s handle = refresh_now (record s { timer = none; armed = clear_timeout handle s.armed })

unfoldable pub resume : Poller → Option ℕ → Poller
resume s (some handle) = s
resume s none =
    if leb (s.interval_ms + s.last_refresh_at) s.now
    then refresh_now s
    else schedule s (remaining s)

unfoldable pub handle_visibility_change : Poller → Poller
unfolding resume
handle_visibility_change s =
    if not s.running then s else if not s.visible then cancel_timer s else resume s s.timer

unfoldable pub begin_run : Poller → Poller
begin_run s = record s {
  running = true;
  last_refresh_at = s.now;
  subscribed = true;
  listeners = s.listeners + 1;
}

unfoldable pub start : Poller → Poller
start s =
    if s.running then s else if s.visible then schedule (begin_run s) s.interval_ms else begin_run s

-- `unsubscribe?.(); unsubscribe = undefined`.
unfoldable pub unsubscribe : Poller → Poller
unsubscribe s =
    if s.subscribed then record s { subscribed = false; listeners = s.listeners - 1 } else s

unfoldable pub stop : Poller → Poller
stop s = if not s.running then s else unsubscribe (cancel_timer (record s { running = false }))

-- The document becomes visible or hidden, and tells its listeners.
unfoldable pub show : Poller → Bool → Poller
show s visible =
    let r = record s { visible = visible } in
    if s.listeners == 0 then r else handle_visibility_change r
