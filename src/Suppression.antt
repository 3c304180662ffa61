-- ===== src/Suppression.antt =====
-- lib/scheduled/suppression.ts: when a scheduled source is suppressed for permanent failures.
mod Tests
use mathlib.Core.Option
use stellar_core.Prelude.{
  ℕ, ◌+◌, ◌≤◌, ◌≡◌, refl, ◌≢◌, Bool, true, false, not, Option, none, some, List, [], ◌∷◌, arith,
  leb, if◌then◌else◌, ◌↔◌, ◌⊎◌, inl, inr,
}
use stellar_core.Prelude.Int.{Date}
use stellar_core.Prelude.Text.{Text}

abbrev pub permanent_failure_suppression_threshold : ℕ
permanent_failure_suppression_threshold = 3

pub data SuppressionState : Type 0 where
  active suppressed : SuppressionState

pub record SuppressionCounterState : Type 0 where
  pub state : SuppressionState
  pub consecutive_failures : ℕ
  pub suppressed_at : Option Date

pub data ScheduledSuppressionReason : Type 0 where
  permanent_configuration permanent_protocol : ScheduledSuppressionReason

-- `RateEngineFailure["phase"]` of types/rates.ts.
pub data Phase : Type 0 where
  quote normalization persistence : Phase

-- The codes of a failure: those of lib/rates/normalize.ts, and any other.
pub data FailureCode : Type 0 where
  invalid_anchor invalid_corridor asset_mismatch invalid_rate invalid_source_amount : FailureCode
  invalid_destination_amount invalid_fee unsupported_fee_asset invalid_timestamp : FailureCode
  arithmetic_inconsistency : FailureCode
  other_failure : Text → FailureCode

-- `PERMANENT_NORMALIZATION_CODES.has(code)`.
is_permanent : FailureCode → Bool
is_permanent (other_failure code) = false
is_permanent _ = true

is_configuration : FailureCode → Bool
is_configuration invalid_anchor = true
is_configuration invalid_corridor = true
is_configuration _ = false

unfoldable pub classify_permanent_scheduled_failure :
    Phase → FailureCode → Option ScheduledSuppressionReason
unfolding is_permanent is_configuration
classify_permanent_scheduled_failure normalization code =
    if not (is_permanent code)
    then none
    else some (if is_configuration code then permanent_configuration else permanent_protocol)
classify_permanent_scheduled_failure _ code = none

-- `previous?.suppressedAt ?? new Date(observedAt)`.
abbrev pub or_date : Option Date → Date → Date
or_date none observed_at = observed_at
or_date (some t) observed_at = t

-- The branch of a previous state that is absent or ACTIVE.
count_failure : ℕ → Option Date → Date → SuppressionCounterState
count_failure failures suppressed_at observed_at =
    let should_suppress = leb permanent_failure_suppression_threshold (failures + 1) in
    record {
      state = if should_suppress then suppressed else active;
      consecutive_failures = failures + 1;
      suppressed_at = if should_suppress then some (or_date suppressed_at observed_at) else none;
    }

advance : SuppressionState → SuppressionCounterState → Date → SuppressionCounterState
unfolding count_failure
advance suppressed previous observed_at = record {
  state = suppressed;
  consecutive_failures = previous.consecutive_failures;
  suppressed_at = previous.suppressed_at;
}
advance active previous observed_at =
    count_failure previous.consecutive_failures previous.suppressed_at observed_at

unfoldable pub advance_permanent_suppression :
    Option SuppressionCounterState → Date → SuppressionCounterState
unfolding count_failure advance
advance_permanent_suppression none observed_at = count_failure 0 none observed_at
advance_permanent_suppression (some previous) observed_at =
    advance previous.state previous observed_at

unfoldable pub reactivate_permanent_suppression : SuppressionCounterState
reactivate_permanent_suppression = record {
  state = active;
  consecutive_failures = 0;
  suppressed_at = none;
}

-- A failure is permanent exactly when it is a NORMALIZATION failure with one of the ten listed
-- codes, and a configuration failure exactly for the codes of the anchor and the corridor.
pub classify_permanent_iff :
    (phase : Phase) (code : FailureCode)
    → ((classify_permanent_scheduled_failure phase code ≡ none)
        ↔ ((phase ≢ normalization) ⊎ ((text : Text) × (code ≡ other_failure text))))
      × ((classify_permanent_scheduled_failure phase code ≡ some permanent_configuration)
          ↔ ((phase ≡ normalization) × ((code ≡ invalid_anchor) ⊎ (code ≡ invalid_corridor))))
unfolding classify_permanent_scheduled_failure
classify_permanent_iff quote code = (((λ _. inl (λ e. cc)), λ _. refl), ((λ e. cc), λ h. cc))
classify_permanent_iff persistence code = (((λ _. inl (λ e. cc)), λ _. refl), ((λ e. cc), λ h. cc))
classify_permanent_iff normalization (other_failure text) =
    (((λ _. inr (text, refl)), λ _. refl), ((λ e. cc), λ h. ground arith))
classify_permanent_iff normalization _ =
    (((λ e. cc), λ h. ground arith), (ground arith, ground arith))

-- The state after the failures observed at the given dates.
unfoldable pub advance_all :
    Option SuppressionCounterState → List Date → Option SuppressionCounterState
advance_all s [] = s
advance_all s (d ∷ ds) = advance_all (some (advance_permanent_suppression s d)) ds

-- What the counter stands for.
pub record IsConsistent (s : SuppressionCounterState) : Type 0 where
  pub active_below : s.state ≡ active → (s.consecutive_failures ≤ 2) × (s.suppressed_at ≡ none)
  pub suppressed_from :
      s.state ≡ suppressed → (s.consecutive_failures ≡ 3) × (s.suppressed_at ≢ none)

abbrev IsConsistent? : Option SuppressionCounterState → Type 0
IsConsistent? none = Unit
IsConsistent? (some s) = IsConsistent s

advance-IsConsistent :
    (s : Option SuppressionCounterState) (d : Date)
    → IsConsistent? s
    → IsConsistent (advance_permanent_suppression s d)
unfolding advance_permanent_suppression
advance-IsConsistent none d h = ground arith
advance-IsConsistent (some s) d h = ground arith

advance_all-IsConsistent :
    (s : Option SuppressionCounterState) (ds : List Date)
    → IsConsistent? s
    → IsConsistent? (advance_all s ds)
unfolding advance_all
advance_all-IsConsistent s [] h = h
advance_all-IsConsistent s (d ∷ ds) h =
    advance_all-IsConsistent (some (advance_permanent_suppression s d)) ds
      (advance-IsConsistent s d h)

same_suppressed :
    (s : SuppressionCounterState) (d : Date)
    → s.state ≡ suppressed
    → advance_permanent_suppression (some s) d ≡ s
unfolding advance_permanent_suppression
same_suppressed s d h = ground arith

advance_all-suppressed :
    (s : SuppressionCounterState) (ds : List Date)
    → s.state ≡ suppressed
    → advance_all (some s) ds ≡ some s
unfolding advance_all
advance_all-suppressed s [] h = refl
advance_all-suppressed s (d ∷ ds) h = rw (same_suppressed s d h) (advance_all-suppressed s ds h)

advance_all-some :
    (s : SuppressionCounterState) (ds : List Date)
    → (t : SuppressionCounterState) × (advance_all (some s) ds ≡ some t)
unfolding advance_all
advance_all-some s [] = (s, refl)
advance_all-some s (d ∷ ds) = advance_all-some (advance_permanent_suppression (some s) d) ds

IsConsistent-some :
    (s : SuppressionCounterState) (d : Date) (ds : List Date)
    → IsConsistent? (advance_all (some s) (d ∷ ds))
    → (t : SuppressionCounterState) × (advance_all (some s) (d ∷ ds) ≡ some t) × IsConsistent t
IsConsistent-some s d ds h = let (t, e) = advance_all-some s (d ∷ ds) in (t, e, rw e at h)

-- A source that starts afresh or was reactivated is suppressed by its third permanent failure, at
-- the date of that failure, and neither the counter nor that date changes with any further ones;
-- before it the source is active.
pub third_failure_suppresses :
    (a b c : Date) (ds : List Date)
    → let s : SuppressionCounterState = record {
      state = suppressed;
      consecutive_failures = 3;
      suppressed_at = some c;
    } in
      (advance_all none (a ∷ b ∷ c ∷ ds) ≡ some s)
      × (advance_all (some reactivate_permanent_suppression) (a ∷ b ∷ c ∷ ds) ≡ some s)
      × (Option.map (λ s. s.state) (advance_all none (a ∷ b ∷ [])) ≡ some active)
unfolding advance_all advance_permanent_suppression reactivate_permanent_suppression
third_failure_suppresses a b c ds =
    let s : SuppressionCounterState = record {
      state = suppressed;
      consecutive_failures = 3;
      suppressed_at = some c;
    } in
    (advance_all-suppressed s ds refl, advance_all-suppressed s ds refl, refl)

-- Over any run of permanent failures an ACTIVE source has at most two counted and no suppression
-- date, and a SUPPRESSED one exactly three and a date, if that held of the state before the run.
pub counter-IsConsistent :
    (s : SuppressionCounterState) (d : Date) (ds : List Date)
    → IsConsistent s
    → (t : SuppressionCounterState) × (advance_all (some s) (d ∷ ds) ≡ some t) × IsConsistent t
counter-IsConsistent s d ds h =
    IsConsistent-some s d ds (advance_all-IsConsistent (some s) (d ∷ ds) h)
