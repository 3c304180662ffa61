-- ===== src/Poller/Events.antt =====
-- lib/dashboard/polling.ts: timers, settled refreshes, visibility and time keep the invariant.
use stellar_core.Prelude.{
  ℕ, ◌+◌, ◌-◌, ◌≤◌, ◌≡◌, refl, sym, ap, ◌∙◌, Bool, true, false, not, Option, none, some, List, [],
  ◌∷◌, ◌++◌, arith, leb, ◌==◌,
}
use stellar_core.Prelude.Predicates.{append-nil_iff}
use mathlib.Core.Path.{subst}
use stellar_core.Poller.{
  Armed, Poller, clear_timeout, remaining, settle, fire, resume, handle_visibility_change, show,
}
use stellar_core.Poller.Life.{elapse, Inv-if}
use stellar_core.Poller.Timers.{
  IsArmed, Core, Inv, clear_one, cancel_timer_lem, retimed-Core, cancelled-Inv, schedule-Inv,
  refresh_now-Inv, schedule_next-Inv,
}

resume-Inv :
    (s : Poller) (t : Option ℕ)
    → Core s
    → s.timer ≡ t
    → IsArmed s t
    → s.running ≡ true
    → s.visible ≡ true
    → Inv (resume s t)
unfolding resume remaining
resume-Inv s none c e a r v =
    let idle : IsArmed s s.timer = subst (λ t. IsArmed s t) (sym e) a in
    Inv-if (leb (s.interval_ms + s.last_refresh_at) s.now) _ _
      (λ l. refresh_now-Inv s c idle (ground (arith, l)))
      (λ l. schedule-Inv s _ c idle r v (omega arith) (omega (arith, c.last_past)))
resume-Inv s (some h) c e a r v = record {
  core = c;
  timer_armed = subst (λ t. IsArmed s t) (sym e) a;
  hidden_idle = λ f. cc;
  stopped_idle = λ f. cc;
  never_stalls = λ _ _ _ f. cc;
}

pub single : (x a : Armed) (before after : List Armed) → (x ∷ []) ≡ (before ++ (a ∷ after)) → x ≡ a
single x a [] after e = ground (arith, e)
single x a (z ∷ zs) after e =
    let none_left : (zs ++ (a ∷ after)) ≡ [] = ground (arith, e) in
    let none_armed : (a ∷ after) ≡ [] = ((append-nil_iff zs (a ∷ after)).0 none_left).1 in cc

-- An armed timer is the one that the poller holds.
pub the_one :
    (s : Poller) (t : Option ℕ) (before after : List Armed) (a : Armed)
    → IsArmed s t
    → s.armed ≡ (before ++ (a ∷ after))
    → (clear_timeout a.handle s.armed ≡ []) × (s.interval_ms + s.last_refresh_at ≤ a.due)
the_one s none before after a h e =
    let none_armed : (a ∷ after) ≡ [] = ((append-nil_iff before (a ∷ after)).0 (sym e ∙ h)).1 in cc
the_one s (some x) before after a (due, f, g, _) e =
    let same = single (record { handle = x; due = due }) a before after (sym f ∙ e) in
    (
      ap (λ l. clear_timeout a.handle l) (f ∙ ap (λ y. y ∷ []) same) ∙ clear_one a.handle a.due,
      omega (arith, g, ap (λ y. y.due) same),
    )

pub fire-Inv :
    (s : Poller) (before after : List Armed) (a : Armed)
    → Inv s
    → s.armed ≡ (before ++ (a ∷ after))
    → a.due ≤ s.now
    → Inv (fire s a.handle)
unfolding fire
fire-Inv s before after a i e d =
    let x = the_one s s.timer before after a i.timer_armed e in
    refresh_now-Inv (record s { timer = none; armed = clear_timeout a.handle s.armed })
      (retimed-Core s none _ s.next_handle i.core) x.0 (omega (arith, x.1, d))

pub settle-Inv : (s : Poller) → Inv s → s.refreshing ≡ true → Inv (settle s)
unfolding settle
settle-Inv s i r =
    schedule_next-Inv (record s { refreshing = false; in_flight = s.in_flight - 1 })
      (record {
        one_listener = i.core.one_listener;
        subscribed_running = i.core.subscribed_running;
        one_refresh = ground (arith, i.core.one_refresh, r);
        last_past = i.core.last_past;
        spaced = i.core.spaced;
      })
      i.timer_armed

later_timer : (s : Poller) (t : Option ℕ) (ms : ℕ) → IsArmed s t → IsArmed (elapse s ms) t
unfolding elapse
later_timer s none ms h = h
later_timer s (some x) ms (due, e, g, l) = (due, e, g, omega (arith, l))

pub elapse-Inv : (s : Poller) (ms : ℕ) → Inv s → Inv (elapse s ms)
unfolding elapse
elapse-Inv s ms i = record {
  core = record {
    one_listener = i.core.one_listener;
    subscribed_running = i.core.subscribed_running;
    one_refresh = i.core.one_refresh;
    last_past = omega (arith, i.core.last_past);
    spaced = i.core.spaced;
  };
  timer_armed = later_timer s s.timer ms i.timer_armed;
  hidden_idle = i.hidden_idle;
  stopped_idle = i.stopped_idle;
  never_stalls = i.never_stalls;
}

pub show-Inv : (s : Poller) (visible : Bool) → Inv s → Inv (show s visible)
unfolding show handle_visibility_change
show-Inv s visible i =
    let r = record s { visible = visible } in
    let c : Core r = record {
      one_listener = i.core.one_listener;
      subscribed_running = i.core.subscribed_running;
      one_refresh = i.core.one_refresh;
      last_past = i.core.last_past;
      spaced = i.core.spaced;
    } in
    Inv-if (s.listeners == 0) r _
      (λ z.
        let idle : s.running ≡ false = ground (arith, z, i.core.one_listener) in
        record {
          core = c;
          timer_armed = i.timer_armed;
          hidden_idle = λ _. i.stopped_idle idle;
          stopped_idle = i.stopped_idle;
          never_stalls = λ e. cc;
        })
      (λ z.
        Inv-if (not s.running) r _ (λ e. ground (arith, z, e, i.core.one_listener))
          (λ e.
            Inv-if (not visible) _ _
              (λ v.
                subst Inv (sym (cancel_timer_lem r i.timer_armed))
                  (cancelled-Inv r c (λ _ f _. ground (arith, f, v))))
              (λ v.
                resume-Inv r s.timer c refl i.timer_armed (ground (arith, e)) (ground (arith, v)))))
