-- ===== src/Poller/Refine.antt =====
-- lib/dashboard/polling.ts: the poller against its documented policy.
use stellar_core.Prelude.{
  ℕ, ◌+◌, ◌≤◌, ◌≡◌, refl, sym, ◌∙◌, Bool, true, false, not, ◌||◌, Option, none, some, List, ◌∷◌,
  arith, if◌then◌else◌, ◌++◌, leb, ◌==◌,
}
use mathlib.Core.Path.{subst}
use stellar_core.Poller.{
  Poller, cancel_from, cancel_timer, set_timeout, schedule, schedule_next, begin_refresh,
  refresh_now, settle, begin_run, start, unsubscribe, stop, Armed, clear_timeout, remaining, fire,
  resume, handle_visibility_change, show,
}
use stellar_core.Poller.Events.{the_one}
use stellar_core.Poller.Life.{elapse}
use stellar_core.Poller.Reach.{IsReachable, IsReachable-Inv}
use stellar_core.Poller.Timers.{IsArmed, cancel_timer_lem}

-- The policy sees the times of the refreshes only. A step of it does nothing, or refreshes now: then
-- the poller runs, the document is visible, and an interval has passed since the last refresh or
-- the start.
pub data PolicyStep (s : Poller) : List ℕ → Type 0 where
  waits : PolicyStep s s.refreshes
  refreshes_now :
      s.running ≡ true
      → s.visible ≡ true
      → s.refreshing ≡ false
      → s.interval_ms + s.last_refresh_at ≤ s.now
      → PolicyStep s (s.now ∷ s.refreshes)

cancel_timer-refreshes : (s : Poller) (t : Option ℕ) → (cancel_from s t).refreshes ≡ s.refreshes
unfolding cancel_from
cancel_timer-refreshes s none = refl
cancel_timer-refreshes s (some h) = refl

schedule-refreshes : (s : Poller) (delay : ℕ) → (schedule s delay).refreshes ≡ s.refreshes
unfolding schedule set_timeout cancel_timer
schedule-refreshes s delay = cancel_timer-refreshes s s.timer

PolicyStep-if :
    (s : Poller) (b : Bool) (x y : Poller)
    → (b ≡ true → PolicyStep s x.refreshes)
    → (b ≡ false → PolicyStep s y.refreshes)
    → PolicyStep s (if b then x else y).refreshes
PolicyStep-if s true x y h k = h refl
PolicyStep-if s false x y h k = k refl

refreshes-if :
    (s : Poller) (b : Bool) (x y : Poller)
    → x.refreshes ≡ s.refreshes
    → y.refreshes ≡ s.refreshes
    → (if b then x else y).refreshes ≡ s.refreshes
refreshes-if s true x y h k = h
refreshes-if s false x y h k = k

stays : (s : Poller) (rs : List ℕ) → rs ≡ s.refreshes → PolicyStep s rs
stays s rs e = subst (λ x. PolicyStep s x) (sym e) waits

refresh_now-PolicyStep :
    (s : Poller)
    → IsArmed s s.timer
    → s.interval_ms + s.last_refresh_at ≤ s.now
    → PolicyStep s (refresh_now s).refreshes
unfolding refresh_now begin_refresh
refresh_now-PolicyStep s a h = rw (cancel_timer_lem s a) (
    PolicyStep-if s (not s.running || not s.visible || s.refreshing) _ _ (λ _. waits)
      (λ e. refreshes_now (ground (arith, e)) (ground (arith, e)) (ground (arith, e)) h))

schedule_next-refreshes : (s : Poller) → (schedule_next s).refreshes ≡ s.refreshes
unfolding schedule_next cancel_timer
schedule_next-refreshes s =
    refreshes-if s (not s.running || not s.visible) _ _ (cancel_timer-refreshes s s.timer)
      (schedule-refreshes s (remaining s))

start-PolicyStep : (s : Poller) → PolicyStep s (start s).refreshes
unfolding start begin_run
start-PolicyStep s =
    PolicyStep-if s s.running _ _ (λ _. waits)
      (λ _.
        PolicyStep-if s s.visible _ _ (λ _. stays s _ (schedule-refreshes _ s.interval_ms))
          (λ _. waits))

unsubscribe-refreshes : (s : Poller) → (unsubscribe s).refreshes ≡ s.refreshes
unfolding unsubscribe
unsubscribe-refreshes s = refreshes-if s s.subscribed _ _ refl refl

stop-PolicyStep : (s : Poller) → PolicyStep s (stop s).refreshes
unfolding stop cancel_timer
stop-PolicyStep s =
    PolicyStep-if s (not s.running) _ _ (λ _. waits)
      (λ _. stays s _ (unsubscribe-refreshes _ ∙ cancel_timer-refreshes _ s.timer))

settle-PolicyStep : (s : Poller) → PolicyStep s (settle s).refreshes
unfolding settle
settle-PolicyStep s = stays s _ (schedule_next-refreshes _)

resume-PolicyStep :
    (s : Poller) (t : Option ℕ)
    → s.timer ≡ t
    → IsArmed s s.timer
    → PolicyStep s (resume s t).refreshes
unfolding resume
resume-PolicyStep s (some h) e a = waits
resume-PolicyStep s none e a =
    PolicyStep-if s (leb (s.interval_ms + s.last_refresh_at) s.now) _ _
      (λ l. refresh_now-PolicyStep s a (ground (arith, l)))
      (λ _. stays s _ (schedule-refreshes s (remaining s)))

show-PolicyStep :
    (s : Poller) (visible : Bool)
    → IsArmed s s.timer
    → PolicyStep (record s { visible = visible }) (show s visible).refreshes
unfolding show handle_visibility_change cancel_timer
show-PolicyStep s visible a =
    let r = record s { visible = visible } in
    PolicyStep-if r (s.listeners == 0) _ _ (λ _. waits)
      (λ _.
        PolicyStep-if r (not s.running) _ _ (λ _. waits)
          (λ _.
            PolicyStep-if r (not visible) _ _ (λ _. stays r _ (cancel_timer-refreshes r s.timer))
              (λ _. resume-PolicyStep r s.timer refl a)))

retimed-PolicyStep :
    (s : Poller) (t : Option ℕ) (a : List Armed) (rs : List ℕ)
    → PolicyStep (record s { timer = t; armed = a }) rs
    → PolicyStep s rs
retimed-PolicyStep s t a _ waits = waits
retimed-PolicyStep s t a _ (refreshes_now r v f h) = refreshes_now r v f h

fire-PolicyStep :
    (s : Poller) (before after : List Armed) (a : Armed)
    → IsArmed s s.timer
    → s.armed ≡ (before ++ (a ∷ after))
    → a.due ≤ s.now
    → PolicyStep s (fire s a.handle).refreshes
unfolding fire
fire-PolicyStep s before after a h e d =
    let x = the_one s s.timer before after a h e in
    retimed-PolicyStep s none (clear_timeout a.handle s.armed) _ (
      refresh_now-PolicyStep (record s { timer = none; armed = clear_timeout a.handle s.armed }) x.0
        (omega (arith, x.1, d)))

-- A step of the poller: `Step s u s'` goes from s to s', by a call that finds the state u.
pub data Step (s : Poller) : Poller → Poller → Type 0 where
  start_step : Step s s (start s)
  stop_step : Step s s (stop s)
  show_step : (visible : Bool) → Step s (record s { visible = visible }) (show s visible)
  elapse_step : (ms : ℕ) → Step s s (elapse s ms)
  fire_step :
      (before after : List Armed) (a : Armed)
      → s.armed ≡ (before ++ (a ∷ after))
      → a.due ≤ s.now
      → Step s s (fire s a.handle)
  settle_step : Step s s (settle s)

-- From every state that a poller reaches, each of its steps is a step of the documented policy: it
-- leaves the refreshes as they are, or adds one now, while the poller runs over a visible document
-- with no other refresh in flight, an interval or more after the last one and the start.
pub Step-PolicyStep : (s u s' : Poller) → IsReachable s → Step s u s' → PolicyStep u s'.refreshes
unfolding elapse
Step-PolicyStep s _ _ h start_step = start-PolicyStep s
Step-PolicyStep s _ _ h stop_step = stop-PolicyStep s
Step-PolicyStep s _ _ h (show_step visible) =
    show-PolicyStep s visible (IsReachable-Inv s h).timer_armed
Step-PolicyStep s _ _ h (elapse_step ms) = waits
Step-PolicyStep s _ _ h (fire_step before after a e d) =
    fire-PolicyStep s before after a (IsReachable-Inv s h).timer_armed e d
Step-PolicyStep s _ _ h settle_step = settle-PolicyStep s
