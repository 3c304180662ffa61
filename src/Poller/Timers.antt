-- ===== src/Poller/Timers.antt =====
-- lib/dashboard/polling.ts: what each call does to the timer and to the times of the refreshes.
use stellar_core.Prelude.{
  ℕ, ◌+◌, ◌≤◌, ◌≡◌, refl, ◌≢◌, true, false, Option, none, some, List, [], ◌∷◌, if◌then◌else◌, ap,
  ◌∙◌, inl, inr, not, ◌||◌, arith, Bool-cases,
}
use mathlib.Core.Path.{ap₂}
use stellar_core.Poller.{
  Poller, clear_timeout, cancel_timer, set_timeout, Armed, cancel_from, schedule, remaining,
  schedule_next, begin_refresh, refresh_now,
}

-- Every refresh is an interval after the one before it, and the first an interval after the time 0;
-- the newest comes first.
abbrev pub Gaps : ℕ → ℕ → List ℕ → Type 0
Gaps interval newest [] = interval ≤ newest
Gaps interval newest (r ∷ rs) = (r + interval ≤ newest) × Gaps interval r rs

abbrev pub IsSpaced : ℕ → ℕ → List ℕ → Type 0
IsSpaced interval bound [] = Unit
IsSpaced interval bound (r ∷ rs) = (r ≤ bound) × Gaps interval r rs

-- The timers of the clock are the one that the poller holds, which is due an interval after the last
-- refresh at the earliest, and within an interval.
abbrev pub IsArmed : Poller → Option ℕ → Type 0
IsArmed s none = s.armed ≡ []
IsArmed s (some h) =
    (due : ℕ) × (s.armed ≡ (record { handle = h; due = due } ∷ []))
    × (s.interval_ms + s.last_refresh_at ≤ due)
    × (due ≤ s.now + s.interval_ms)

pub record Core (s : Poller) : Type 0 where
  pub one_listener : s.listeners ≡ (if s.running then 1 else 0)
  pub subscribed_running : s.subscribed ≡ s.running
  pub one_refresh : s.in_flight ≡ (if s.refreshing then 1 else 0)
  pub last_past : s.last_refresh_at ≤ s.now
  pub spaced : IsSpaced s.interval_ms s.last_refresh_at s.refreshes

pub record Inv (s : Poller) : Type 0 where
  pub core : Core s
  pub timer_armed : IsArmed s s.timer
  pub hidden_idle : s.visible ≡ false → s.timer ≡ none
  pub stopped_idle : s.running ≡ false → s.timer ≡ none
  pub never_stalls : s.running ≡ true → s.visible ≡ true → s.refreshing ≡ false → s.timer ≢ none

abbrev pub cancelled : Poller → Poller
cancelled s = record s { timer = none; armed = [] }

pub clear_one : (h due : ℕ) → clear_timeout h (record { handle = h; due = due } ∷ []) ≡ []
unfolding clear_timeout
clear_one h due = ground arith

cancel_from_lem :
    (s : Poller) (t : Option ℕ) → s.timer ≡ t → IsArmed s t → cancel_from s t ≡ cancelled s
unfolding cancel_from
cancel_from_lem s none e h = ap₂ (λ t a. record s { timer = t; armed = a }) e h
cancel_from_lem s (some x) e (due, f, _, _) =
    ap (λ a. record s { timer = none; armed = a }) (ap (λ a. clear_timeout x a) f ∙ clear_one x due)

pub cancel_timer_lem : (s : Poller) → IsArmed s s.timer → cancel_timer s ≡ cancelled s
unfolding cancel_timer
cancel_timer_lem s h = cancel_from_lem s s.timer refl h

-- The parts of the invariant that no timer changes.
pub retimed-Core :
    (s : Poller) (t : Option ℕ) (a : List Armed) (n : ℕ)
    → Core s
    → Core (record s { timer = t; armed = a; next_handle = n })
retimed-Core s t a n c = record {
  one_listener = c.one_listener;
  subscribed_running = c.subscribed_running;
  one_refresh = c.one_refresh;
  last_past = c.last_past;
  spaced = c.spaced;
}

pub cancelled-Inv :
    (s : Poller)
    → Core s
    → (s.running ≡ true → s.visible ≡ true → s.refreshing ≡ false → ⊥)
    → Inv (cancelled s)
cancelled-Inv s c h = record {
  core = retimed-Core s none [] s.next_handle c;
  timer_armed = refl;
  hidden_idle = λ _. refl;
  stopped_idle = λ _. refl;
  never_stalls = λ r v f. absurd (h r v f);
}

pub schedule-Inv :
    (s : Poller) (delay : ℕ)
    → Core s
    → IsArmed s s.timer
    → s.running ≡ true
    → s.visible ≡ true
    → s.interval_ms + s.last_refresh_at ≤ s.now + delay
    → delay ≤ s.interval_ms
    → Inv (schedule s delay)
unfolding schedule set_timeout
schedule-Inv s delay c a r v h l = rw (cancel_timer_lem s a) (record {
  core = retimed-Core s (some s.next_handle) _ (s.next_handle + 1) c;
  timer_armed = (s.now + delay, refl, h, omega (arith, l));
  hidden_idle = λ e. cc;
  stopped_idle = λ e. cc;
  never_stalls = λ _ _ _ e. cc;
})

Gaps-start :
    (interval bound now : ℕ) (rs : List ℕ)
    → IsSpaced interval bound rs
    → bound + interval ≤ now
    → Gaps interval now rs
Gaps-start interval bound now [] h g = omega (arith, g)
Gaps-start interval bound now (r ∷ rs) (h, k) g = (omega (arith, h, g), k)

begin_refresh-Inv :
    (s : Poller)
    → Core s
    → s.refreshing ≡ false
    → s.interval_ms + s.last_refresh_at ≤ s.now
    → Inv (begin_refresh (cancelled s))
unfolding begin_refresh
begin_refresh-Inv s c r h = record {
  core = record {
    one_listener = c.one_listener;
    subscribed_running = c.subscribed_running;
    one_refresh = ground (arith, c.one_refresh, r);
    last_past = omega arith;
    spaced = (
      omega arith,
      Gaps-start s.interval_ms s.last_refresh_at s.now s.refreshes c.spaced (omega (arith, h)),
    );
  };
  timer_armed = refl;
  hidden_idle = λ _. refl;
  stopped_idle = λ _. refl;
  never_stalls = λ _ _ e. cc;
}

pub refresh_now-Inv :
    (s : Poller)
    → Core s
    → IsArmed s s.timer
    → s.interval_ms + s.last_refresh_at ≤ s.now
    → Inv (refresh_now s)
unfolding refresh_now
refresh_now-Inv s c a h =
    rw (cancel_timer_lem s a) (elim (Bool-cases (not s.running || not s.visible || s.refreshing)) [
      | inl e ↦ rw e (cancelled-Inv s c (λ r v f. ground (arith, e, r, v, f)))
      | inr e ↦ rw e (begin_refresh-Inv s c (ground (arith, e)) h)
    ])

pub schedule_next-Inv : (s : Poller) → Core s → IsArmed s s.timer → Inv (schedule_next s)
unfolding schedule_next remaining
schedule_next-Inv s c a = elim (Bool-cases (not s.running || not s.visible)) [
  | inl e ↦ rw (e, cancel_timer_lem s a) (cancelled-Inv s c (λ r v f. ground (arith, e, r, v, f)))
  | inr e ↦ rw e (
      schedule-Inv s _ c a (ground (arith, e)) (ground (arith, e)) (omega arith)
        (omega (arith, c.last_past)))
]
