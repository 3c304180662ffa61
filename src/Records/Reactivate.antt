-- ===== src/Records/Reactivate.antt =====
-- lib/rates/freshness.ts: what a reactivation does, and what the next failure keeps of it.
use mathlib.Core.Option
use stellar_core.Prelude.{
  ◌≡◌, refl, inl, inr, Bool, true, false, not, ◌&&◌, ◌||◌, Option, none, some, arith, Bool-cases,
  ◌≤◌, ap, ◌≢◌, ◌↔◌, List, if◌then◌else◌,
}
use stellar_core.Prelude.Predicates.{All}
use stellar_core.Prelude.Text.{Text}
use stellar_core.Freshness.{of_text}
use stellar_core.Records.{
  SuppressionReactivation, SuppressionRecord, Platform, is_missing, is_supported_method,
  reactivated, reactivate_source, is_suppression_eligible, FailureInput, record_transient,
  failures_before, record_permanent, recorded, record_failure, is_suppressed_state,
  is_source_suppressed,
}
use stellar_core.Records.Policy.{
  normalize_timestamp-some, record_all, permanent_count, HasTime, IsCounted, record_all_lem,
  suppressed_iff,
}
use stellar_core.Suppression.{active}

-- The guards of `reactivateSource`.
abbrev pub is_authorized : SuppressionReactivation → Bool
is_authorized a =
    not (is_missing a.authored_by || is_missing a.reason) && is_supported_method a.method

reactivate_source_lem :
    (p : Platform) (r : SuppressionRecord) (a : SuppressionReactivation)
    → is_authorized a ≡ true
    → (t : Text) × (reactivate_source p r a ≡ some (reactivated r a t))
unfolding reactivate_source
reactivate_source_lem p r a h =
    let (t, e) = normalize_timestamp-some p (some (of_text a.reactivated_at)) (λ f. cc) in
    elim (Bool-cases (is_missing a.authored_by || is_missing a.reason)) [
      | inl b ↦ absurd (ground (arith, h, b))
      | inr b ↦ elim (Bool-cases (not (is_supported_method a.method))) [
        | inl m ↦ absurd (ground (arith, h, m))
        | inr m ↦ (t, rw (b, m, e) refl)
      ]
    ]

reactivated-IsCounted :
    (r : SuppressionRecord) (a : SuppressionReactivation) (t : Text)
    → IsCounted (some (reactivated r a t))
unfolding reactivated is_source_suppressed is_suppressed_state failures_before
reactivated-IsCounted r a t = refl

-- A reactivation with an author, a reason and one of the two methods makes the record ACTIVE, and it
-- is then SUPPRESSED again exactly when at least three of the failures recorded after it, each with
-- a time, were permanent.
pub reactivation_restarts_count :
    (p : Platform) (r : SuppressionRecord) (a : SuppressionReactivation) (is : List FailureInput)
    → is_authorized a ≡ true
    → All HasTime is
    → (r' : SuppressionRecord) × (s : Option SuppressionRecord) × (reactivate_source p r a
        ≡ some r')
      × (is_source_suppressed (some r') ≡ false)
      × (record_all p (some r') is ≡ some s)
      × ((is_source_suppressed s ≡ true) ↔ (3 ≤ permanent_count is))
unfolding reactivated is_source_suppressed is_suppressed_state failures_before
reactivation_restarts_count p r a is h times =
    let (t, e) = reactivate_source_lem p r a h in
    let (s, f, c, n) =
      record_all_lem p (some (reactivated r a t)) is times (reactivated-IsCounted r a t) in
    (reactivated r a t, s, e, refl, f, suppressed_iff s c (permanent_count is) (omega (arith, n)))

-- A choice between two ACTIVE records, of which the second has no audit metadata.
active_choice :
    (b : Bool) (x y : SuppressionRecord)
    → x.activation_state ≡ active
    → y.activation_state ≡ active
    → y.reactivation ≡ none
    → ((if not b then x else y).activation_state ≡ active)
      × ((if not b then x else y).reactivation ≡ (if b then none else x.reactivation))
active_choice true x y e f g = (f, g)
active_choice false x y e f g = (e, refl)

-- After an authorized reactivation, a transient failure with a time keeps the audit metadata of the
-- reactivation in the record, and a permanent one drops it although the source stays ACTIVE.
pub reactivation_is_forgotten :
    (p : Platform) (r : SuppressionRecord) (a : SuppressionReactivation) (i : FailureInput)
    → is_authorized a ≡ true
    → HasTime i
    → (r' : SuppressionRecord) × (s : SuppressionRecord) × (reactivate_source p r a ≡ some r')
      × (record_failure p (some r') i ≡ some s)
      × (r'.reactivation ≢ none)
      × (s.activation_state ≡ active)
      × (s.reactivation
          ≡ (if is_suppression_eligible i.failure_class then none else r'.reactivation))
unfolding reactivated record_failure recorded record_permanent record_transient failures_before
reactivation_is_forgotten p r a i h time =
    let (t, e) = reactivate_source_lem p r a h in
    let (u, f) = normalize_timestamp-some p i.observed_at time in
    let b = is_suppression_eligible i.failure_class in
    let kept = record_transient (some (reactivated r a t)) i u in
    let counted = record_permanent (some (reactivated r a t)) i u in
    let after = active_choice b kept counted refl refl refl in
    (
      reactivated r a t,
      recorded (some (reactivated r a t)) i u,
      e,
      ap (λ x. Option.map (λ v. recorded (some (reactivated r a t)) i v) x) f,
      (λ g. cc),
      after.0,
      after.1,
    )
