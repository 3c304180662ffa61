-- ===== src/Poller/Reach.antt =====
-- lib/dashboard/polling.ts: the poller over any sequence of calls, timers and visibility changes.
use stellar_core.Prelude.{
  ℕ, ◌+◌, ◌*◌, ◌≤◌, ◌≡◌, Bool, true, false, Option, some, List, [], ◌∷◌, ◌++◌, arith, length, refl,
  ap, ◌≢◌, not, ◌||◌, none, if◌then◌else◌,
}
use stellar_core.Poller.{
  Armed, Poller, create_dashboard_poller, settle, fire, start, stop, show, cancel_from,
  cancel_timer, begin_refresh, refresh_now,
}
use stellar_core.Poller.Events.{fire-Inv, settle-Inv, elapse-Inv, show-Inv}
use stellar_core.Poller.Life.{elapse, created-Inv, start-Inv, stop-Inv}
use stellar_core.Poller.Timers.{Gaps, IsSpaced, Inv, IsArmed}

-- The states of a poller: its two methods are called, time passes, the document is shown or hidden,
-- a due timer fires, and a refresh in flight settles.
pub data IsReachable : Poller → Type 0 where
  created :
      {s : Poller} (interval_ms : Option ℕ) (now : ℕ) (visible : Bool)
      → create_dashboard_poller interval_ms now visible ≡ some s
      → IsReachable s
  started : {s : Poller} → IsReachable s → IsReachable (start s)
  stopped : {s : Poller} → IsReachable s → IsReachable (stop s)
  shown : {s : Poller} (visible : Bool) → IsReachable s → IsReachable (show s visible)
  elapsed : {s : Poller} (ms : ℕ) → IsReachable s → IsReachable (elapse s ms)
  fired :
      {s : Poller} (before after : List Armed) (a : Armed)
      → IsReachable s
      → s.armed ≡ (before ++ (a ∷ after))
      → a.due ≤ s.now
      → IsReachable (fire s a.handle)
  settled : {s : Poller} → IsReachable s → s.refreshing ≡ true → IsReachable (settle s)

-- In every state that a poller reaches, the clock has armed the timer that the poller holds and no
-- other, one listener is subscribed while it runs and none else, at most one refresh is in flight,
-- no timer is armed while the document is hidden or the poller is stopped, and one is armed, or a
-- refresh is in flight, while it runs and the document is visible.
pub IsReachable-Inv : (s : Poller) → IsReachable s → Inv s
IsReachable-Inv s (created interval_ms now visible e) = created-Inv s interval_ms now visible e
IsReachable-Inv _ (started {s} h) = start-Inv s (IsReachable-Inv s h)
IsReachable-Inv _ (stopped {s} h) = stop-Inv s (IsReachable-Inv s h)
IsReachable-Inv _ (shown {s} visible h) = show-Inv s visible (IsReachable-Inv s h)
IsReachable-Inv _ (elapsed {s} ms h) = elapse-Inv s ms (IsReachable-Inv s h)
IsReachable-Inv _ (fired {s} before after a h e d) =
    fire-Inv s before after a (IsReachable-Inv s h) e d
IsReachable-Inv _ (settled {s} h r) = settle-Inv s (IsReachable-Inv s h) r

Gaps-length :
    (interval newest : ℕ) (rs : List ℕ)
    → Gaps interval newest rs
    → (length rs + 1) * interval ≤ newest
Gaps-length interval newest [] h = omega (arith, h)
Gaps-length interval newest (r ∷ rs) (h, k) = omega (arith, h, Gaps-length interval r rs k)

refresh_count :
    (s : Poller) (rs : List ℕ)
    → s.last_refresh_at ≤ s.now
    → IsSpaced s.interval_ms s.last_refresh_at rs
    → length rs * s.interval_ms ≤ s.now
refresh_count s [] l h = omega arith
refresh_count s (r ∷ rs) l (h, k) = omega (arith, l, h, Gaps-length s.interval_ms r rs k)

-- In every state that a poller reaches, the refreshes were at least an interval apart, and there
-- were no more of them than whole intervals of the clock.
pub refreshes_bounded :
    (s : Poller)
    → IsReachable s
    → IsSpaced s.interval_ms s.last_refresh_at s.refreshes
      × (length s.refreshes * s.interval_ms ≤ s.now)
refreshes_bounded s h =
    let i = IsReachable-Inv s h in
    (i.core.spaced, refresh_count s s.refreshes i.core.last_past i.core.spaced)

if_false : (b : Bool) (x y : Poller) → b ≡ false → (if b then x else y) ≡ y
if_false true x y e = cc
if_false false x y e = refl

fired_refreshes :
    (s : Poller) (handle : ℕ)
    → s.running ≡ true
    → s.visible ≡ true
    → s.refreshing ≡ false
    → (fire s handle).refreshes ≡ (s.now ∷ s.refreshes)
unfolding fire refresh_now cancel_timer cancel_from begin_refresh
fired_refreshes s handle r v f =
    ap (λ p. p.refreshes)
      (if_false (not s.running || not s.visible || s.refreshing) _ _ (ground (arith, r, v, f)))

-- The armed timer refreshes once an interval has passed.
abbrev pub RefreshesNext : Poller → Type 0
RefreshesNext s =
    (a : Armed) × (s.armed ≡ (a ∷ []))
    × (a.due ≤ (elapse s s.interval_ms).now)
    × ((fire (elapse s s.interval_ms) a.handle).refreshes ≡ ((s.now + s.interval_ms) ∷ s.refreshes))

next_from :
    (s : Poller) (t : Option ℕ)
    → IsArmed s t
    → t ≢ none
    → s.running ≡ true
    → s.visible ≡ true
    → s.refreshing ≡ false
    → RefreshesNext s
unfolding elapse
next_from s none h g r v f = absurd (g refl)
next_from s (some x) (due, e, _, l) g r v f =
    (record { handle = x; due = due }, e, l, fired_refreshes (elapse s s.interval_ms) x r v f)

-- In every state that a poller reaches, running over a visible document with no refresh in flight,
-- one timer is armed, and when one interval has passed it is due and its callback refreshes.
pub next_refresh :
    (s : Poller)
    → IsReachable s
    → s.running ≡ true
    → s.visible ≡ true
    → s.refreshing ≡ false
    → RefreshesNext s
next_refresh s h r v f =
    let i = IsReachable-Inv s h in next_from s s.timer i.timer_armed (i.never_stalls r v f) r v f
