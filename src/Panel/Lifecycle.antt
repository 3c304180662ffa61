-- ===== src/Panel/Lifecycle.antt =====
-- lib/dashboard/dashboardNavigationState.ts: the states of the coordinator over any sequence of
-- calls but `reset`.
use stellar_core.Prelude.{
  ℕ, ◌≤◌, ◌<◌, ◌≡◌, Bool, true, false, Option, none, some, List, [], ◌∷◌, ◌++◌, arith, ◌==◌, refl,
  inl, inr, ==_iff, Bool-cases, sym, ap, ◌∙◌, ◌||◌,
}
use stellar_core.Prelude.Predicates.{any, All, All-middle, All-mono}
use stellar_core.Panel.{
  PanelCachePolicy, Coordinator, Visit, Settled, new_coordinator, subscribe, unsubscribe,
  navigate_in, is_obsolete, accept, release, settle, navigate_away, abort_with, start_fetch,
}

unfoldable pub with_visit : Option Visit → List Visit → List Visit
with_visit none visits = visits
with_visit (some v) visits = v ∷ visits

abort_with-old :
    (o : Option ℕ) (stopped : List ℕ) (n : ℕ)
    → ((c : ℕ) → any (λ x. x == c) stopped ≡ true → c < n)
    → ((c : ℕ) → o ≡ some c → c < n)
    → (c : ℕ) → any (λ x. x == c) (abort_with o stopped) ≡ true
    → c < n
unfolding abort_with
abort_with-old none stopped n h k c e = omega (arith, h c e)
abort_with-old (some d) stopped n h k c e = elim (Bool-cases (d == c)) [
  | inl same ↦ omega (arith, k d refl, (==_iff d c).0 same)
  | inr other ↦
      let old : any (λ x. x == c) stopped ≡ true =
        sym (ap (λ b. b || any (λ x. x == c) stopped) other) ∙ e in
      omega (arith, h c old)
]

All-with_visit :
    (P : Visit → Type 0) (o : Option Visit) (visits : List Visit)
    → ((v : Visit) → o ≡ some v → P v)
    → All P visits
    → All P (with_visit o visits)
unfolding with_visit
All-with_visit P none visits new h = h
All-with_visit P (some v) visits new h = (new v refl, h)

module _ {A : Type 0} where
  -- Whether the AbortController of a visit was aborted.
  unfoldable pub was_aborted : Coordinator A → Visit → Bool
  was_aborted s v = any (λ x. x == v.controller) s.aborted

  -- The coordinators and the visits whose fetches are in flight, after any calls but `reset`.
  pub data IsReachable : Coordinator A → List Visit → Type 0 where
    created :
        (ttl : ℕ) (policy : PanelCachePolicy) (initial_data : Option A)
        → IsReachable (new_coordinator ttl policy initial_data) []
    entered :
        {s : Coordinator A} {visits : List Visit} (now : ℕ)
        → IsReachable s visits
        → IsReachable (navigate_in s now).0 (with_visit (navigate_in s now).1 visits)
    settled :
        {s : Coordinator A} (before after : List Visit) (v : Visit) (outcome : Settled A)
        → IsReachable s (before ++ (v ∷ after))
        → IsReachable (settle s v outcome) (before ++ after)
    departed :
        {s : Coordinator A} {visits : List Visit}
        → IsReachable s visits
        → IsReachable (navigate_away s) visits
    subscribed :
        {s : Coordinator A} {visits : List Visit} (subscriber : ℕ)
        → IsReachable s visits
        → IsReachable (subscribe s subscriber) visits
    unsubscribed :
        {s : Coordinator A} {visits : List Visit} (subscriber : ℕ)
        → IsReachable s visits
        → IsReachable (unsubscribe s subscriber) visits

  -- AbortControllers are never used twice.
  pub record IsFresh (s : Coordinator A) : Type 0 where
    pub aborted_old : (c : ℕ) → any (λ x. x == c) s.aborted ≡ true → c < s.next_controller
    pub current_old : (c : ℕ) → s.current_abort_controller ≡ some c → c < s.next_controller

  -- A visit in flight is not from the future, and while it is the shown one it is not aborted.
  pub record InFlight (s : Coordinator A) (v : Visit) : Type 0 where
    pub past : v.visit_id ≤ s.current_visit_id
    pub controller_old : v.controller < s.next_controller
    pub unaborted : is_obsolete s v ≡ false → was_aborted s v ≡ false

  navigate_in-IsFresh : (s : Coordinator A) (now : ℕ) → IsFresh s → IsFresh (navigate_in s now).0
  unfolding navigate_in start_fetch
  navigate_in-IsFresh s now h =
      let opened = abort_with-old s.current_abort_controller s.aborted s.next_controller in
      let old = opened h.aborted_old h.current_old in ground (arith, old)

  navigate_in-InFlight :
      (s : Coordinator A) (now : ℕ) (v : Visit)
      → IsFresh s
      → InFlight s v
      → InFlight (navigate_in s now).0 v
  unfolding navigate_in is_obsolete was_aborted
  navigate_in-InFlight s now v h k = ground arith

  settle-IsFresh :
      (s : Coordinator A) (v : Visit) (outcome : Settled A)
      → IsFresh s
      → IsFresh (settle s v outcome)
  unfolding settle is_obsolete accept release
  settle-IsFresh s v outcome h = ground arith

  settle-InFlight :
      (s : Coordinator A) (v w : Visit) (outcome : Settled A)
      → InFlight s w
      → InFlight (settle s v outcome) w
  unfolding settle is_obsolete accept release was_aborted
  settle-InFlight s v w outcome k = ground arith

  navigate_away-IsFresh : (s : Coordinator A) → IsFresh s → IsFresh (navigate_away s)
  unfolding navigate_away
  navigate_away-IsFresh s h = ground arith

  navigate_away-InFlight :
      (s : Coordinator A) (v : Visit) → InFlight s v → InFlight (navigate_away s) v
  unfolding navigate_away is_obsolete was_aborted
  navigate_away-InFlight s v k = ground arith

  subscribe-IsFresh :
      (s : Coordinator A) (subscriber : ℕ)
      → IsFresh s
      → IsFresh (subscribe s subscriber) × IsFresh (unsubscribe s subscriber)
  unfolding subscribe unsubscribe
  subscribe-IsFresh s subscriber h = ground arith

  subscribe-InFlight :
      (s : Coordinator A) (subscriber : ℕ) (v : Visit)
      → InFlight s v
      → InFlight (subscribe s subscriber) v × InFlight (unsubscribe s subscriber) v
  unfolding subscribe unsubscribe is_obsolete was_aborted
  subscribe-InFlight s subscriber v k = ground arith

  fresh_controller :
      (s : Coordinator A)
      → IsFresh s
      → any (λ x. x == s.next_controller) (abort_with s.current_abort_controller s.aborted) ≡ false
  fresh_controller s h =
      let stopped = abort_with s.current_abort_controller s.aborted in
      let opened = abort_with-old s.current_abort_controller s.aborted s.next_controller in
      elim (Bool-cases (any (λ x. x == s.next_controller) stopped)) [
        | inl e ↦ absurd (omega (arith, opened h.aborted_old h.current_old s.next_controller e))
        | inr e ↦ e
      ]

  new_visit-InFlight :
      (s : Coordinator A) (now : ℕ) (v : Visit)
      → IsFresh s
      → (navigate_in s now).1 ≡ some v
      → InFlight (navigate_in s now).0 v
  unfolding navigate_in start_fetch is_obsolete was_aborted
  new_visit-InFlight s now v h e = let new = fresh_controller s h in ground (arith, new)

  -- What holds of a reachable coordinator and the visits in flight.
  pub record Inv (s : Coordinator A) (visits : List Visit) : Type 0 where
    pub fresh : IsFresh s
    pub flights : All (InFlight s) visits

  pub reachable-Inv :
      (s : Coordinator A) (visits : List Visit) → IsReachable s visits → Inv s visits
  unfolding new_coordinator
  reachable-Inv s visits (created ttl policy initial_data) = record {
    fresh = ground arith;
    flights = record {};
  }
  reachable-Inv s visits (entered {s = t} {visits = before} now r) =
      let ih = reachable-Inv t before r in
      record {
        fresh = navigate_in-IsFresh t now ih.fresh;
        flights =
            All-with_visit (InFlight (navigate_in t now).0) (navigate_in t now).1 before
              (λ v e. new_visit-InFlight t now v ih.fresh e)
              (All-mono _ _ before (λ v k. navigate_in-InFlight t now v ih.fresh k) ih.flights);
      }
  reachable-Inv s visits (settled {s = t} before after v outcome r) =
      let ih = reachable-Inv t (before ++ (v ∷ after)) r in
      record {
        fresh = settle-IsFresh t v outcome ih.fresh;
        flights =
            All-mono _ _ (before ++ after) (λ w k. settle-InFlight t v w outcome k)
              (All-middle (InFlight t) before after v ih.flights).1;
      }
  reachable-Inv s visits (departed {s = t} r) =
      let ih = reachable-Inv t visits r in
      record {
        fresh = navigate_away-IsFresh t ih.fresh;
        flights = All-mono _ _ visits (λ v k. navigate_away-InFlight t v k) ih.flights;
      }
  reachable-Inv s visits (subscribed {s = t} subscriber r) =
      let ih = reachable-Inv t visits r in
      record {
        fresh = (subscribe-IsFresh t subscriber ih.fresh).0;
        flights = All-mono _ _ visits (λ v k. (subscribe-InFlight t subscriber v k).0) ih.flights;
      }
  reachable-Inv s visits (unsubscribed {s = t} subscriber r) =
      let ih = reachable-Inv t visits r in
      record {
        fresh = (subscribe-IsFresh t subscriber ih.fresh).1;
        flights = All-mono _ _ visits (λ v k. (subscribe-InFlight t subscriber v k).1) ih.flights;
      }
