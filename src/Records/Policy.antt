-- ===== src/Records/Policy.antt =====
-- lib/rates/freshness.ts: what the records count, over any sequence of failures.
use mathlib.Core.Option
use stellar_core.Prelude.{
  ℕ, ◌+◌, ◌≡◌, refl, ap, ◌≢◌, inl, inr, Option, none, some, List, [], ◌∷◌, arith, leb,
  if◌then◌else◌, Option-cases, ◌↔◌, Bool, true, false, not, length, ◌≤◌, ◌∙◌,
}
use stellar_core.Prelude.Int.{at, invalid_date, Date}
use stellar_core.Prelude.Predicates.{All, count_by}
use stellar_core.Prelude.Text.{Text}
use stellar_core.Freshness.{Instant, of_date, of_text}
use stellar_core.Records.{
  SuppressionRecord, suppression_threshold, is_suppression_eligible, FailureInput, Platform,
  normalize_timestamp, record_transient, failures_before, record_permanent, recorded,
  record_failure, is_source_suppressed, is_suppressed_state,
}
use stellar_core.Suppression.{
  active, suppressed, advance_all, SuppressionState, advance_permanent_suppression,
  third_failure_suppresses,
}

-- The failures are recorded one after the other.
unfoldable pub record_all :
    Platform → Option SuppressionRecord → List FailureInput → Option (Option SuppressionRecord)
record_all p previous [] = some previous
record_all p previous (i ∷ is) = elim (record_failure p previous i) [
  | none ↦ none
  | some r ↦ record_all p (some r) is
]

abbrev pub permanent_count : List FailureInput → ℕ
permanent_count is = count_by (λ i. is_suppression_eligible i.failure_class) is

-- The time of the failure is not the invalid date.
abbrev pub HasTime : FailureInput → Type 0
HasTime i = i.observed_at ≢ some (of_date invalid_date)

-- The state of a record agrees with its count.
abbrev pub IsCounted : Option SuppressionRecord → Type 0
IsCounted r = is_source_suppressed r ≡ leb suppression_threshold (failures_before r)

pub normalize_timestamp-some :
    (p : Platform) (t : Option Instant)
    → t ≢ some (of_date invalid_date)
    → (s : Text) × (normalize_timestamp p t ≡ some s)
unfolding normalize_timestamp
normalize_timestamp-some p none h = (_, refl)
normalize_timestamp-some p (some (of_date (at ms))) h = (_, refl)
normalize_timestamp-some p (some (of_date invalid_date)) h = absurd (h refl)
normalize_timestamp-some p (some (of_text t)) h = elim (Option-cases (p.parse_date t)) [
  | inl e ↦ (p.to_iso_string p.now, ground (arith, e))
  | inr (ms, e) ↦ (p.to_iso_string ms, ground (arith, e))
]

-- One more record, after a failure that counts or does not.
abbrev Counts : Option SuppressionRecord → Bool → SuppressionRecord → Type 0
Counts previous counted r =
    IsCounted (some r)
    × (failures_before (some r) ≡ failures_before previous + (if counted then 1 else 0))

state_if : (b : Bool) → is_suppressed_state (if b then suppressed else active) ≡ b
unfolding is_suppressed_state
state_if true = refl
state_if false = refl

record_permanent-Counts :
    (previous : Option SuppressionRecord) (i : FailureInput) (t : Text)
    → Counts previous true (record_permanent previous i t)
unfolding record_permanent failures_before is_source_suppressed
record_permanent-Counts none i t = (state_if _, refl)
record_permanent-Counts (some previous) i t = (state_if _, refl)

record_transient-Counts :
    (previous : Option SuppressionRecord) (i : FailureInput) (t : Text)
    → IsCounted previous
    → Counts previous false (record_transient previous i t)
unfolding record_transient failures_before is_source_suppressed is_suppressed_state
record_transient-Counts none i t h = (refl, refl)
record_transient-Counts (some previous) i t h = (h, omega arith)

Counts-if :
    (previous : Option SuppressionRecord) (b : Bool) (x y : SuppressionRecord)
    → Counts previous false x
    → Counts previous true y
    → Counts previous b (if not b then x else y)
Counts-if previous true x y h k = k
Counts-if previous false x y h k = h

recorded-Counts :
    (previous : Option SuppressionRecord) (i : FailureInput) (t : Text)
    → IsCounted previous
    → Counts previous (is_suppression_eligible i.failure_class) (recorded previous i t)
unfolding recorded
recorded-Counts previous i t h =
    Counts-if previous (is_suppression_eligible i.failure_class) _ _
      (record_transient-Counts previous i t h) (record_permanent-Counts previous i t)

pub record_failure_lem :
    (p : Platform) (previous : Option SuppressionRecord) (i : FailureInput)
    → HasTime i
    → IsCounted previous
    → (r : SuppressionRecord) × (record_failure p previous i ≡ some r)
      × IsCounted (some r)
      × (failures_before (some r)
          ≡ failures_before previous + (if is_suppression_eligible i.failure_class then 1 else 0))
unfolding record_failure
record_failure_lem p previous i t h =
    let time = normalize_timestamp-some p i.observed_at t in
    let l = recorded-Counts previous i time.0 h in
    (
      recorded previous i time.0,
      ap (λ x. Option.map (λ s. recorded previous i s) x) time.1,
      l.0,
      l.1,
    )

pub record_all_lem :
    (p : Platform) (previous : Option SuppressionRecord) (is : List FailureInput)
    → All HasTime is
    → IsCounted previous
    → (r : Option SuppressionRecord) × (record_all p previous is ≡ some r)
      × IsCounted r
      × (failures_before r ≡ failures_before previous + permanent_count is)
unfolding record_all
record_all_lem p previous [] t h = (previous, refl, h, omega arith)
record_all_lem p previous (i ∷ is) (t, ts) h =
    let (r, e, c, n) = record_failure_lem p previous i t h in
    let (s, f, d, m) = record_all_lem p (some r) is ts c in
    (
      s,
      ap
            (λ (o : Option SuppressionRecord). elim o as (λ _. Option (Option SuppressionRecord)) [
              | none ↦ none
              | some x ↦ record_all p (some x) is
            ])
            e
          ∙ f,
      d,
      omega (arith, n, m),
    )

no_failures : IsCounted none
unfolding is_source_suppressed failures_before
no_failures = refl

pub suppressed_iff :
    (r : Option SuppressionRecord)
    → IsCounted r
    → (n : ℕ) → failures_before r ≡ n
    → (is_source_suppressed r ≡ true) ↔ (3 ≤ n)
suppressed_iff r c n e = (ground (arith, c, e), ground (arith, c, e))

abbrev pub state_of_all : List Date → Option SuppressionState
state_of_all ds = Option.map (λ s. s.state) (advance_all none ds)

advance_all-suppressed_iff :
    (ds : List Date) → (state_of_all ds ≡ some suppressed) ↔ (3 ≤ length ds)
unfolding advance_all advance_permanent_suppression
advance_all-suppressed_iff [] = ((λ e. cc), λ l. absurd (omega (arith, l)))
advance_all-suppressed_iff (a ∷ []) = ((λ e. cc), λ l. absurd (omega (arith, l)))
advance_all-suppressed_iff (a ∷ b ∷ []) = ((λ e. cc), λ l. absurd (omega (arith, l)))
advance_all-suppressed_iff (a ∷ b ∷ c ∷ ds) = (
  (λ _. omega arith),
  λ _. ap (λ s. Option.map (λ s. s.state) s) (third_failure_suppresses a b c ds).0,
)

-- Whatever failures are recorded for a new source, each with a time, the record is SUPPRESSED
-- exactly when at least three of them were permanent, which is when the counter of
-- lib/scheduled/suppression.ts, advanced as often, is SUPPRESSED.
pub policies_agree :
    (p : Platform) (is : List FailureInput) (ds : List Date)
    → All HasTime is
    → length ds ≡ permanent_count is
    → (r : Option SuppressionRecord) × (record_all p none is ≡ some r)
      × ((is_source_suppressed r ≡ true) ↔ (3 ≤ permanent_count is))
      × ((is_source_suppressed r ≡ true) ↔ (state_of_all ds ≡ some suppressed))
unfolding failures_before
policies_agree p is ds t e =
    let (r, f, c, n) = record_all_lem p none is t no_failures in
    let iff : (is_source_suppressed r ≡ true) ↔ (3 ≤ permanent_count is) =
      suppressed_iff r c (permanent_count is) (omega (arith, n)) in
    (
      r,
      f,
      iff,
      (
        (λ h. (advance_all-suppressed_iff ds).1 (omega (arith, iff.0 h, e))),
        λ h. iff.1 (omega (arith, (advance_all-suppressed_iff ds).0 h, e)),
      ),
    )
