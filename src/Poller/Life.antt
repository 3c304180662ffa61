-- ===== src/Poller/Life.antt =====
-- lib/dashboard/polling.ts: the methods keep the invariant.
use stellar_core.Prelude.{
  ℕ, ◌+◌, ◌≤◌, ◌≡◌, refl, inl, inr, Bool, true, false, Option, none, some, List, ◌∷◌, arith,
  Bool-cases, ◌-◌, sym, not, [], ◌==◌, if◌then◌else◌,
}
use mathlib.Core.Path.{subst}
use stellar_core.Poller.{
  Poller, initial_poller, create_dashboard_poller, begin_run, start, unsubscribe, stop, or_default,
}
use stellar_core.Poller.Timers.{IsArmed, Core, Inv, IsSpaced, cancel_timer_lem, schedule-Inv}

-- Time passes.
unfoldable pub elapse : Poller → ℕ → Poller
elapse s ms = record s { now = s.now + ms }

pub Inv-if :
    (b : Bool) (x y : Poller) → (b ≡ true → Inv x) → (b ≡ false → Inv y) → Inv (if b then x else y)
Inv-if true x y h k = h refl
Inv-if false x y h k = k refl

pub initial-Inv :
    (interval_ms now : ℕ) (visible : Bool) → Inv (initial_poller interval_ms now visible)
unfolding initial_poller
initial-Inv interval_ms now visible = record {
  core = record {
    one_listener = refl;
    subscribed_running = refl;
    one_refresh = refl;
    last_past = omega arith;
    spaced = tt;
  };
  timer_armed = refl;
  hidden_idle = λ _. refl;
  stopped_idle = λ _. refl;
  never_stalls = λ e. cc;
}

pub created-Inv :
    (s : Poller) (interval_ms : Option ℕ) (now : ℕ) (visible : Bool)
    → create_dashboard_poller interval_ms now visible ≡ some s
    → Inv s
unfolding create_dashboard_poller
created-Inv s interval_ms now visible e = elim (Bool-cases (or_default interval_ms == 0)) [
  | inl z ↦ absurd (ground (arith, e, z))
  | inr z ↦ subst Inv (ground (arith, e, z)) (initial-Inv (or_default interval_ms) now visible)
]

stopped_timer : (s : Poller) → Inv s → s.running ≡ false → IsArmed s none
stopped_timer s i r = subst (λ t. IsArmed s t) (i.stopped_idle r) i.timer_armed

IsSpaced-later :
    (interval bound now : ℕ) (rs : List ℕ)
    → bound ≤ now
    → IsSpaced interval bound rs
    → IsSpaced interval now rs
IsSpaced-later interval bound now [] l h = tt
IsSpaced-later interval bound now (r ∷ rs) l (h, k) = (omega (arith, l, h), k)

begin_run-Core : (s : Poller) → Inv s → s.running ≡ false → Core (begin_run s)
unfolding begin_run
begin_run-Core s i r = record {
  one_listener = ground (arith, i.core.one_listener, r);
  subscribed_running = refl;
  one_refresh = i.core.one_refresh;
  last_past = omega arith;
  spaced =
      IsSpaced-later s.interval_ms s.last_refresh_at s.now s.refreshes i.core.last_past
        i.core.spaced;
}

hidden_run-Inv : (s : Poller) → Inv s → s.running ≡ false → s.visible ≡ false → Inv (begin_run s)
unfolding begin_run
hidden_run-Inv s i r v = record {
  core = begin_run-Core s i r;
  timer_armed = subst (λ t. IsArmed (begin_run s) t) (sym (i.stopped_idle r)) (stopped_timer s i r);
  hidden_idle = λ _. i.stopped_idle r;
  stopped_idle = λ e. cc;
  never_stalls = λ _ e. cc;
}

pub start-Inv : (s : Poller) → Inv s → Inv (start s)
unfolding start begin_run
start-Inv s i =
    Inv-if s.running s _ (λ _. i)
      (λ r.
        Inv-if s.visible _ _
          (λ v.
            schedule-Inv (begin_run s) s.interval_ms (begin_run-Core s i r)
              (subst (λ t. IsArmed (begin_run s) t) (sym (i.stopped_idle r)) (stopped_timer s i r))
              refl v (omega arith) (omega arith))
          (λ v. hidden_run-Inv s i r v))

ended-Inv :
    (s : Poller)
    → Inv s
    → s.running ≡ true
    → Inv (record s {
      running = false;
      timer = none;
      armed = [];
      subscribed = false;
      listeners = s.listeners - 1;
    })
ended-Inv s i r = record {
  core = record {
    one_listener = ground (arith, i.core.one_listener, r);
    subscribed_running = refl;
    one_refresh = i.core.one_refresh;
    last_past = i.core.last_past;
    spaced = i.core.spaced;
  };
  timer_armed = refl;
  hidden_idle = λ _. refl;
  stopped_idle = λ _. refl;
  never_stalls = λ e. cc;
}

pub stop-Inv : (s : Poller) → Inv s → Inv (stop s)
unfolding stop unsubscribe
stop-Inv s i =
    Inv-if (not s.running) s _ (λ _. i)
      (λ e.
        let r = record s { running = false } in
        subst (λ c. Inv (unsubscribe c)) (sym (cancel_timer_lem r i.timer_armed))
          (Inv-if s.subscribed _ _ (λ _. ended-Inv s i (ground (arith, e)))
            (λ u. ground (arith, e, u, i.core.subscribed_running))))
