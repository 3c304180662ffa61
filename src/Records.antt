-- ===== src/Records.antt =====
-- lib/rates/freshness.ts: the durable suppression records of the scheduled sources, a second policy
-- beside lib/scheduled/suppression.ts. `Date.parse`, `toISOString` of a valid date and the clock are
-- parameters; `none` stands for a thrown error.
mod Policy
mod Reactivate
mod Tests
use mathlib.Core.Option
use stellar_core.Prelude.{
  ℕ, ◌+◌, Bool, true, false, not, ◌||◌, Option, none, some, List, [], ◌∷◌, map, leb, if◌then◌else◌,
}
use stellar_core.Prelude.Int.{ℤ, get_time}
use stellar_core.Prelude.Text.{set_has, Text, codes, text_eq}
use stellar_core.Freshness.{Instant, of_date, of_text}
use stellar_core.Suppression.{SuppressionState, active, suppressed}

pub record SuppressionReactivation : Type 0 where
  pub method : Text
  pub authored_by : Text
  pub reactivated_at : Text
  pub reason : Text

pub record SuppressionRecord : Type 0 where
  pub source_id : Text
  pub failure_class : Text
  pub reason : Text
  pub consecutive_failures : ℕ
  pub first_failure_at : Text
  pub last_failure_at : Text
  pub last_evidence : Text
  pub activation_state : SuppressionState
  pub reactivation : Option SuppressionReactivation

abbrev pub permanent_failure_classes : List Text
permanent_failure_classes =
    codes "invalid_configuration"
    ∷ codes "unsupported_protocol"
    ∷ codes "malformed_anchor"
    ∷ codes "invalid_source_reference"
    ∷ []

abbrev pub transient_failure_classes : List Text
transient_failure_classes =
    codes "network_error"
    ∷ codes "timeout"
    ∷ codes "rate_limited"
    ∷ codes "upstream_unavailable"
    ∷ codes "transient_protocol_error"
    ∷ []

abbrev pub suppression_threshold : ℕ
suppression_threshold = 3

unfoldable pub is_permanent_failure_class : Text → Bool
is_permanent_failure_class failure_class = set_has failure_class permanent_failure_classes

unfoldable pub is_transient_failure_class : Text → Bool
is_transient_failure_class failure_class = set_has failure_class transient_failure_classes

unfoldable pub is_suppression_eligible : Text → Bool
is_suppression_eligible failure_class = is_permanent_failure_class failure_class

-- The second argument of `recordFailure`.
pub record FailureInput : Type 0 where
  pub source_id : Text
  pub failure_class : Text
  pub reason : Text
  pub evidence : Text
  pub observed_at : Option Instant

-- What the platform supplies.
pub record Platform : Type 0 where
  pub parse_date : Text → Option ℤ
  pub to_iso_string : ℤ → Text
  pub now : ℤ

-- `normalizeTimestamp`; `toISOString` of the invalid date throws.
unfoldable pub normalize_timestamp : Platform → Option Instant → Option Text
normalize_timestamp p (some (of_date d)) = Option.map p.to_iso_string (get_time d)
normalize_timestamp p (some (of_text t)) = elim (p.parse_date t) [
  | none ↦ some (p.to_iso_string p.now)
  | some ms ↦ some (p.to_iso_string ms)
]
normalize_timestamp p none = some (p.to_iso_string p.now)

-- A transient failure keeps the record, or makes one without failures.
unfoldable pub record_transient : Option SuppressionRecord → FailureInput → Text → SuppressionRecord
record_transient (some previous) i observed_at = previous
record_transient none i observed_at = record {
  source_id = i.source_id;
  failure_class = i.failure_class;
  reason = i.reason;
  consecutive_failures = 0;
  first_failure_at = observed_at;
  last_failure_at = observed_at;
  last_evidence = i.evidence;
  activation_state = active;
  reactivation = none;
}

-- `previous?.consecutiveFailures ?? 0`.
unfoldable pub failures_before : Option SuppressionRecord → ℕ
failures_before none = 0
failures_before (some previous) = previous.consecutive_failures

-- `previous?.firstFailureAt ?? observedAt`.
unfoldable pub first_failure : Option SuppressionRecord → Text → Text
first_failure none observed_at = observed_at
first_failure (some previous) observed_at = previous.first_failure_at

unfoldable pub record_permanent : Option SuppressionRecord → FailureInput → Text → SuppressionRecord
record_permanent previous i observed_at =
    let failures = failures_before previous + 1 in
    record {
      source_id = i.source_id;
      failure_class = i.failure_class;
      reason = i.reason;
      consecutive_failures = failures;
      first_failure_at = first_failure previous observed_at;
      last_failure_at = observed_at;
      last_evidence = i.evidence;
      activation_state = if leb suppression_threshold failures then suppressed else active;
      reactivation = none;
    }

unfoldable pub recorded : Option SuppressionRecord → FailureInput → Text → SuppressionRecord
recorded previous i observed_at =
    if not (is_suppression_eligible i.failure_class)
    then record_transient previous i observed_at
    else record_permanent previous i observed_at

unfoldable pub record_failure :
    Platform → Option SuppressionRecord → FailureInput → Option SuppressionRecord
record_failure p previous i =
    Option.map (λ t. recorded previous i t) (normalize_timestamp p i.observed_at)

unfoldable pub is_missing : Text → Bool
is_missing [] = true
is_missing (c ∷ s) = false

unfoldable pub is_supported_method : Text → Bool
is_supported_method method =
    text_eq method (codes "manual_review") || text_eq method (codes "evidence_based")

unfoldable pub reactivated : SuppressionRecord → SuppressionReactivation → Text → SuppressionRecord
reactivated r a reactivated_at = record r {
  consecutive_failures = 0;
  activation_state = active;
  reactivation = some (record {
    method = a.method;
    authored_by = a.authored_by;
    reactivated_at = reactivated_at;
    reason = a.reason;
  });
}

unfoldable pub reactivate_source :
    Platform → SuppressionRecord → SuppressionReactivation → Option SuppressionRecord
reactivate_source p r a =
    if is_missing a.authored_by || is_missing a.reason
    then none
    else if not (is_supported_method a.method)
    then none
    else Option.map (λ t. reactivated r a t)
        (normalize_timestamp p (some (of_text a.reactivated_at)))

unfoldable pub is_suppressed_state : SuppressionState → Bool
is_suppressed_state active = false
is_suppressed_state suppressed = true

unfoldable pub is_source_suppressed : Option SuppressionRecord → Bool
is_source_suppressed none = false
is_source_suppressed (some r) = is_suppressed_state r.activation_state
