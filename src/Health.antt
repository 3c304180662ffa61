-- ===== src/Health.antt =====
-- lib/stellar/anchorHealth.ts, constants/anchorHealth.ts, types/anchorHealth.ts: the availability
-- state machine of an anchor. `Health/Classify` has the failure taxonomy, `Health/Policy` the
-- theorems on one observation, `Health/History` those on a sequence of observations and
-- `Health/Stale` the one on a failure that successes have answered.
pub mod Classify
pub mod Policy
pub mod Stale
pub mod History
mod Tests
use stellar_core.Prelude.{
  ℕ, zero, suc, ◌+◌, ◌-◌, ◌*◌, ◌/◌, ◌%◌, ◌^◌, ◌≤◌, ◌<◌, min, max, ◌≡◌, refl, sym, ap, ◌∙◌, ◌≢◌, ◌↔◌,
  ◌⊎◌, inl, inr, Bool, true, false, not, ◌&&◌, ◌||◌, Option, none, some, List, [], ◌∷◌, ◌++◌, map,
  arith, ltb, leb, ◌==◌, if◌then◌else◌, ltb→lt, lt→ltb, leb→le, ==_iff, tests, Bool-cases,
  Option-cases, length, get_elem?, get_or, take, drop, replicate, length-append, length-take,
  length-drop, length-map,
}
use stellar_core.Prelude.Int.{
  ℤ, pos, negsuc, pos_part, neg_part, sub_ℕ, ◌+ℤ◌, ◌-ℤ◌, ◌≤ℤ◌, ltb_ℤ, leb_ℤ, -ℤ_parts, +ℤ_parts,
  Date, at, invalid_date, get_time,
}
use stellar_core.Prelude.Text.{
  Text, codes, text_eq, text_eq_iff, text_eq_refl, text_lt, is_digit, all_digits,
}
use stellar_core.Prelude.Predicates.{
  All, All-append, filter_by, any, count_by, length-filter_by, count_by-le-length, count_by-append,
  any-append,
}
use stellar_core.Prelude.Sort.{
  insert_by, sort_by, length-insert_by, length-sort_by, count_by-insert_by, count_by-sort_by,
}

-- `AnchorStatus`, an enum of the database schema.
pub data AnchorStatus : Type 0 where
  unknown live degraded down : AnchorStatus

pub data AnchorFailureClass : Type 0 where
  transient deterministic unknown_class : AnchorFailureClass

pub record AnchorHealthState : Type 0 where
  pub anchor_slug : Text
  pub status : AnchorStatus
  pub consecutive_failures : ℕ
  pub last_failure_class : Option AnchorFailureClass
  pub last_failure_code : Option Text
  pub consecutive_successes : ℕ
  pub last_observed_at : Option Date
  pub last_success_at : Option Date
  pub last_failure_at : Option Date
  pub last_transition_at : Option Date

pub record FailureEvidence : Type 0 where
  pub failure_class : AnchorFailureClass
  pub code : Text

pub data Outcome : Type 0 where
  success failure : Outcome

pub record AnchorHealthObservation : Type 0 where
  pub outcome : Outcome
  pub occurred_at : Date
  pub failure : Option FailureEvidence

pub record AnchorHealthTransition : Type 0 where
  pub status : AnchorStatus
  pub status_changed : Bool
  pub next : AnchorHealthState

abbrev pub transient_degraded_threshold : ℕ
transient_degraded_threshold = 2

abbrev pub transient_down_threshold : ℕ
transient_down_threshold = 3

abbrev pub deterministic_down_threshold : ℕ
deterministic_down_threshold = 2

-- 48 * 60 * 60 * 1000.
abbrev pub sustained_window_ms : ℕ
sustained_window_ms = 172800000

abbrev pub recovery_success_threshold : ℕ
recovery_success_threshold = 2

-- `===` on statuses.
abbrev pub status_eq : AnchorStatus → AnchorStatus → Bool
status_eq unknown unknown = true
status_eq live live = true
status_eq degraded degraded = true
status_eq down down = true
status_eq _ _ = false

unfoldable pub initial_anchor_health_state : Text → AnchorHealthState
initial_anchor_health_state slug = record {
  anchor_slug = slug;
  status = unknown;
  consecutive_failures = 0;
  last_failure_class = none;
  last_failure_code = none;
  consecutive_successes = 0;
  last_observed_at = none;
  last_success_at = none;
  last_failure_at = none;
  last_transition_at = none;
}

-- The elapsed time is NaN, hence not finite, where one of the dates is invalid.
elapsed_reaches_window : Option ℤ → Option ℤ → Bool
elapsed_reaches_window (some now) (some before) = leb_ℤ (pos sustained_window_ms) (now -ℤ before)
elapsed_reaches_window _ _ = false

transient_evidence_sustained : AnchorHealthState → Date → Bool
unfolding elapsed_reaches_window
transient_evidence_sustained s occurred_at = elim s.last_failure_at [
  | none ↦ false
  | some last ↦ elapsed_reaches_window (get_time occurred_at) (get_time last)
]

next_success_status : AnchorStatus → ℕ → AnchorStatus
next_success_status live _ = live
next_success_status unknown successes =
    if leb recovery_success_threshold successes then live else live
next_success_status _ successes =
    if leb recovery_success_threshold successes then live else degraded

-- The last clause of the source's cascade, for a DEGRADED anchor.
next_failure_status :
    AnchorStatus → ℕ → AnchorFailureClass → AnchorHealthState → Date → AnchorStatus
next_failure_status down failures class s occurred_at = down
next_failure_status unknown failures class s occurred_at =
    if leb transient_down_threshold failures then down else unknown
next_failure_status live failures deterministic s occurred_at =
    if leb deterministic_down_threshold failures then down else degraded
next_failure_status live failures class s occurred_at =
    if leb transient_down_threshold failures
    then down
    else if leb transient_degraded_threshold failures || transient_evidence_sustained s occurred_at
    then degraded
    else live
next_failure_status degraded failures deterministic s occurred_at = down
next_failure_status degraded failures class s occurred_at =
    if leb transient_down_threshold failures then down else degraded

apply_success : AnchorHealthState → Date → AnchorHealthTransition
unfolding next_success_status
apply_success s occurred_at =
    let successes = s.consecutive_successes + 1 in
    let next_status = next_success_status s.status successes in
    let changed = not (status_eq next_status s.status) in
    record {
      status = next_status;
      status_changed = changed;
      next = record {
        anchor_slug = s.anchor_slug;
        status = next_status;
        consecutive_failures = 0;
        last_failure_class = none;
        last_failure_code = none;
        consecutive_successes = successes;
        last_observed_at = some occurred_at;
        last_success_at = some occurred_at;
        last_failure_at = s.last_failure_at;
        last_transition_at = if changed then some occurred_at else s.last_transition_at;
      };
    }

-- `failure?.failureClass ?? "UNKNOWN"` and `failure?.code ?? "UNKNOWN"`.
abbrev pub class_of : Option FailureEvidence → AnchorFailureClass
class_of none = unknown_class
class_of (some f) = f.failure_class

abbrev code_of : Option FailureEvidence → Text
code_of none = codes "UNKNOWN"
code_of (some f) = f.code

apply_failure : AnchorHealthState → AnchorHealthObservation → AnchorHealthTransition
unfolding next_failure_status transient_evidence_sustained
apply_failure s o =
    let failures = s.consecutive_failures + 1 in
    let next_status = next_failure_status s.status failures (class_of o.failure) s o.occurred_at in
    let changed = not (status_eq next_status s.status) in
    record {
      status = next_status;
      status_changed = changed;
      next = record {
        anchor_slug = s.anchor_slug;
        status = next_status;
        consecutive_failures = failures;
        last_failure_class = some (class_of o.failure);
        last_failure_code = some (code_of o.failure);
        consecutive_successes = 0;
        last_observed_at = some o.occurred_at;
        last_success_at = s.last_success_at;
        last_failure_at = some o.occurred_at;
        last_transition_at = if changed then some o.occurred_at else s.last_transition_at;
      };
    }

dispatch : Outcome → AnchorHealthState → AnchorHealthObservation → AnchorHealthTransition
unfolding apply_success apply_failure
dispatch success s o = apply_success s o.occurred_at
dispatch failure s o = apply_failure s o

unfoldable pub apply_anchor_health_observation :
    AnchorHealthState → AnchorHealthObservation → AnchorHealthTransition
unfolding dispatch
apply_anchor_health_observation s o = dispatch o.outcome s o

-- The states that a caller persists over a sequence of observations.
unfoldable pub observe_all : AnchorHealthState → List AnchorHealthObservation → AnchorHealthState
observe_all s [] = s
observe_all s (o ∷ os) = observe_all (apply_anchor_health_observation s o).next os
