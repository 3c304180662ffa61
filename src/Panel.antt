-- ===== src/Panel.antt =====
-- lib/dashboard/dashboardNavigationState.ts: the class DashboardPanelCoordinator as the record
-- Coordinator. An AbortController is a number, never used twice, and `aborted` lists those that were
-- aborted; a subscriber is a number, and `delivered` lists what `notify` sent. `navigateIn` is split
-- at its `await`: `navigate_in` is what precedes it, and `settle` what follows it when the fetch
-- settles. Times are natural numbers of milliseconds.
mod Lifecycle
mod Stale
mod Tests
use stellar_core.Prelude.{
  ℕ, Bool, true, false, Option, none, some, List, [], ◌+◌, not, ◌&&◌, ◌||◌, ◌∷◌, ◌++◌, map, ltb,
  ◌==◌, if◌then◌else◌,
}
use stellar_core.Prelude.Predicates.{filter_by, any}
use stellar_core.Prelude.Text.{Text, codes}

pub data PanelFetchStatus : Type 0 where
  idle loading success error : PanelFetchStatus

pub data PanelCachePolicy : Type 0 where
  cache_first network_first no_cache : PanelCachePolicy

is_cache_first : PanelCachePolicy → Bool
is_cache_first cache_first = true
is_cache_first _ = false

pub record DashboardPanelSnapshot (A : Type 0) : Type 0 where
  pub status : PanelFetchStatus
  pub panel_data : Option A
  pub error_message : Option Text
  pub is_active : Bool
  pub visit_count : ℕ
  pub last_fetched_at : Option ℕ

pub record Coordinator (A : Type 0) : Type 0 where
  pub status : PanelFetchStatus
  pub panel_data : Option A
  pub error_message : Option Text
  pub is_active : Bool
  pub current_visit_id : ℕ
  pub last_fetched_at : Option ℕ
  pub current_abort_controller : Option ℕ
  pub next_controller : ℕ
  pub aborted : List ℕ
  pub subscribers : List ℕ
  pub delivered : List (ℕ × DashboardPanelSnapshot A)
  pub cache_ttl_ms : ℕ
  pub cache_policy : PanelCachePolicy

-- The local variables of `navigateIn` across its `await`.
pub record Visit : Type 0 where
  pub visit_id : ℕ
  pub controller : ℕ
  pub now : ℕ

-- How a fetch settles: with a result, an AbortError, another Error, or another thrown value.
pub data Settled (A : Type 0) : Type 0 where
  fetched : A → Settled A
  abort_error other_value : Settled A
  error_of : Text → Settled A

-- `currentAbortController.abort()` where there is one.
unfoldable pub abort_with : Option ℕ → List ℕ → List ℕ
abort_with none stopped = stopped
abort_with (some c) stopped = c ∷ stopped

module _ {A : Type 0} where
  status_of_data : Option A → PanelFetchStatus
  status_of_data none = idle
  status_of_data (some a) = success

  unfoldable pub new_coordinator : ℕ → PanelCachePolicy → Option A → Coordinator A
  unfolding status_of_data
  new_coordinator ttl policy initial_data = record {
    status = status_of_data initial_data;
    panel_data = initial_data;
    error_message = none;
    is_active = false;
    current_visit_id = 0;
    last_fetched_at = none;
    current_abort_controller = none;
    next_controller = 0;
    aborted = [];
    subscribers = [];
    delivered = [];
    cache_ttl_ms = ttl;
    cache_policy = policy;
  }

  unfoldable pub get_snapshot : Coordinator A → DashboardPanelSnapshot A
  get_snapshot s = record {
    status = s.status;
    panel_data = s.panel_data;
    error_message = s.error_message;
    is_active = s.is_active;
    visit_count = s.current_visit_id;
    last_fetched_at = s.last_fetched_at;
  }

  -- The assignments to `subscribers`, and what `notify` sends.
  unfoldable pub set_subscribers :
      Coordinator A → List ℕ → List (ℕ × DashboardPanelSnapshot A) → Coordinator A
  set_subscribers s subs sent = record {
    status = s.status;
    panel_data = s.panel_data;
    error_message = s.error_message;
    is_active = s.is_active;
    current_visit_id = s.current_visit_id;
    last_fetched_at = s.last_fetched_at;
    current_abort_controller = s.current_abort_controller;
    next_controller = s.next_controller;
    aborted = s.aborted;
    subscribers = subs;
    delivered = sent;
    cache_ttl_ms = s.cache_ttl_ms;
    cache_policy = s.cache_policy;
  }

  -- The assignments to `status`, `data`, `error` and `lastFetchedAt`.
  unfoldable pub set_view :
      Coordinator A → PanelFetchStatus → Option A → Option Text → Option ℕ → Coordinator A
  set_view s new_status new_data new_error fetched_at = record {
    status = new_status;
    panel_data = new_data;
    error_message = new_error;
    is_active = s.is_active;
    current_visit_id = s.current_visit_id;
    last_fetched_at = fetched_at;
    current_abort_controller = s.current_abort_controller;
    next_controller = s.next_controller;
    aborted = s.aborted;
    subscribers = s.subscribers;
    delivered = s.delivered;
    cache_ttl_ms = s.cache_ttl_ms;
    cache_policy = s.cache_policy;
  }

  -- The assignments to `isActive` and `currentVisitId`.
  unfoldable pub set_visit : Coordinator A → Bool → ℕ → Coordinator A
  set_visit s active visit = record {
    status = s.status;
    panel_data = s.panel_data;
    error_message = s.error_message;
    is_active = active;
    current_visit_id = visit;
    last_fetched_at = s.last_fetched_at;
    current_abort_controller = s.current_abort_controller;
    next_controller = s.next_controller;
    aborted = s.aborted;
    subscribers = s.subscribers;
    delivered = s.delivered;
    cache_ttl_ms = s.cache_ttl_ms;
    cache_policy = s.cache_policy;
  }

  -- The assignments to `currentAbortController`, and what `new` and `abort()` do.
  unfoldable pub set_controllers : Coordinator A → Option ℕ → ℕ → List ℕ → Coordinator A
  set_controllers s current next stopped = record {
    status = s.status;
    panel_data = s.panel_data;
    error_message = s.error_message;
    is_active = s.is_active;
    current_visit_id = s.current_visit_id;
    last_fetched_at = s.last_fetched_at;
    current_abort_controller = current;
    next_controller = next;
    aborted = stopped;
    subscribers = s.subscribers;
    delivered = s.delivered;
    cache_ttl_ms = s.cache_ttl_ms;
    cache_policy = s.cache_policy;
  }

  unfoldable pub notify : Coordinator A → Coordinator A
  unfolding set_subscribers get_snapshot
  notify s =
      set_subscribers s s.subscribers
        (s.delivered ++ map (λ subscriber. (subscriber, get_snapshot s)) s.subscribers)

  -- `this.subscribers.add(subscriber)`.
  unfoldable pub subscribe : Coordinator A → ℕ → Coordinator A
  unfolding set_subscribers
  subscribe s subscriber =
      set_subscribers s
        (if any (λ x. x == subscriber) s.subscribers
          then s.subscribers
          else s.subscribers ++ (subscriber ∷ []))
        s.delivered

  -- `this.subscribers.delete(subscriber)`.
  unfoldable pub unsubscribe : Coordinator A → ℕ → Coordinator A
  unfolding set_subscribers
  unsubscribe s subscriber =
      set_subscribers s (filter_by (λ x. not (x == subscriber)) s.subscribers) s.delivered

  -- `now - this.lastFetchedAt < this.cacheTtlMs`, where there is data.
  is_cache_valid : Coordinator A → ℕ → Bool
  is_cache_valid s now = elim s.panel_data [
    | none ↦ false
    | some a ↦ elim s.last_fetched_at [ none ↦ false | some t ↦ ltb now (t + s.cache_ttl_ms) ]
  ]

  -- The part of `navigateIn` that starts a fetch.
  unfoldable pub start_fetch : Coordinator A → ℕ → Coordinator A × Option Visit
  unfolding set_controllers set_view notify abort_with set_subscribers get_snapshot
  start_fetch s now =
      let controller = s.next_controller in
      let stopped = abort_with s.current_abort_controller s.aborted in
      let started = set_controllers s (some controller) (controller + 1) stopped in
      (
        notify (set_view started loading s.panel_data none s.last_fetched_at),
        some (record { visit_id = s.current_visit_id; controller = controller; now = now }),
      )

  -- `navigateIn` up to its `await`: the visit whose fetch is in flight, if one was started.
  unfoldable pub navigate_in : Coordinator A → ℕ → Coordinator A × Option Visit
  unfolding start_fetch is_cache_valid is_cache_first set_visit set_view notify set_subscribers
      get_snapshot set_controllers abort_with
  navigate_in s now =
      let visiting = set_visit s true (s.current_visit_id + 1) in
      if is_cache_first s.cache_policy && is_cache_valid s now
      then (notify (set_view visiting success s.panel_data none s.last_fetched_at), none)
      else start_fetch visiting now

  -- `!this.isActive || visitId !== this.currentVisitId`.
  unfoldable pub is_obsolete : Coordinator A → Visit → Bool
  is_obsolete s v = not s.is_active || not (v.visit_id == s.current_visit_id)

  -- The `try` and `catch` blocks after the `await`, for a visit that is not obsolete.
  unfoldable pub accept : Coordinator A → Visit → Settled A → Coordinator A
  unfolding notify set_view set_subscribers get_snapshot
  accept s v (fetched a) = notify (set_view s success (some a) none (some v.now))
  accept s v abort_error = s
  accept s v (error_of message) =
      notify (set_view s error s.panel_data (some message) s.last_fetched_at)
  accept s v other_value =
      notify (set_view s error s.panel_data (some (codes "Unable to load data.")) s.last_fetched_at)

  -- The `finally` block.
  unfoldable pub release : Coordinator A → Visit → Coordinator A
  unfolding set_controllers
  release s v = elim s.current_abort_controller [
    | none ↦ s
    | some c ↦ if c == v.controller then set_controllers s none s.next_controller s.aborted else s
  ]

  unfoldable pub settle : Coordinator A → Visit → Settled A → Coordinator A
  unfolding is_obsolete accept release
  settle s v outcome = release (if is_obsolete s v then s else accept s v outcome) v

  unfoldable pub navigate_away : Coordinator A → Coordinator A
  unfolding set_visit set_controllers abort_with
  navigate_away s =
      set_controllers (set_visit s false s.current_visit_id) none s.next_controller
        (abort_with s.current_abort_controller s.aborted)

  unfoldable pub reset : Coordinator A → Coordinator A
  unfolding navigate_away set_visit set_view notify
  reset s =
      let left = navigate_away s in
      notify (set_view (set_visit left left.is_active 0) idle none none none)
