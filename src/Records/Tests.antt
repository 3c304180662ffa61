-- ===== src/Records/Tests.antt =====
-- Failures of one source.
use stellar_core.Prelude.{
  ◌≤◌, ◌≡◌, refl, ◌≢◌, ◌↔◌, true, false, Option, none, some, List, [], ◌∷◌, if◌then◌else◌,
}
use stellar_core.Prelude.Int.{pos, Date, at}
use stellar_core.Prelude.Predicates.{All}
use stellar_core.Prelude.Text.{set_has, codes, text_eq}
use Prim.Native.String.{String}
use stellar_core.Records.{
  SuppressionReactivation, SuppressionRecord, is_permanent_failure_class, is_suppression_eligible,
  FailureInput, Platform, record_failure, is_missing, is_supported_method, reactivate_source,
  is_source_suppressed,
}
use stellar_core.Records.Policy.{record_all, permanent_count, HasTime, state_of_all, policies_agree}
use stellar_core.Records.Reactivate.{reactivation_restarts_count, reactivation_is_forgotten}
use stellar_core.Suppression.{active, suppressed}

abbrev platform : Platform
platform = record { parse_date = λ t. none; to_iso_string = λ ms. codes "time"; now = pos 7 }

abbrev failure : String → FailureInput
failure failure_class = record {
  source_id = codes "s1";
  failure_class = codes failure_class;
  reason = codes "r";
  evidence = codes "e";
  observed_at = none;
}

abbrev four_failures : List FailureInput
four_failures =
    failure "timeout"
    ∷ failure "malformed_anchor"
    ∷ failure "malformed_anchor"
    ∷ failure "unsupported_protocol"
    ∷ []

four_failures-HasTime : All HasTime four_failures
four_failures-HasTime = ((λ e. cc), ((λ e. cc), ((λ e. cc), ((λ e. cc), tt))))

abbrev three_dates : List Date
three_dates = at (pos 1) ∷ at (pos 2) ∷ at (pos 3) ∷ []

abbrev review : SuppressionReactivation
review = record {
  method = codes "manual_review";
  authored_by = codes "a";
  reactivated_at = codes "t";
  reason = codes "r";
}

abbrev suppressed_record : SuppressionRecord
suppressed_record = record {
  source_id = codes "s1";
  failure_class = codes "malformed_anchor";
  reason = codes "r";
  consecutive_failures = 3;
  first_failure_at = codes "time";
  last_failure_at = codes "time";
  last_evidence = codes "e";
  activation_state = suppressed;
  reactivation = none;
}

policies_agree_example :
    (r : Option SuppressionRecord) × (record_all platform none four_failures ≡ some r)
    × ((is_source_suppressed r ≡ true) ↔ (3 ≤ permanent_count four_failures))
    × ((is_source_suppressed r ≡ true) ↔ (state_of_all three_dates ≡ some suppressed))
unfolding is_suppression_eligible is_permanent_failure_class set_has text_eq
policies_agree_example =
    policies_agree platform four_failures three_dates four_failures-HasTime refl

reactivation_restarts_count_example :
    (r' : SuppressionRecord) × (s : Option SuppressionRecord) × (reactivate_source platform
        suppressed_record review
      ≡ some r')
    × (is_source_suppressed (some r') ≡ false)
    × (record_all platform (some r') four_failures ≡ some s)
    × ((is_source_suppressed s ≡ true) ↔ (3 ≤ permanent_count four_failures))
unfolding is_missing is_supported_method text_eq
reactivation_restarts_count_example =
    reactivation_restarts_count platform suppressed_record review four_failures refl
      four_failures-HasTime

reactivation_is_forgotten_example :
    (r' : SuppressionRecord) × (s : SuppressionRecord) × (reactivate_source platform
        suppressed_record review
      ≡ some r')
    × (record_failure platform (some r') (failure "malformed_anchor") ≡ some s)
    × (r'.reactivation ≢ none)
    × (s.activation_state ≡ active)
    × (s.reactivation
        ≡ (if is_suppression_eligible (codes "malformed_anchor") then none else r'.reactivation))
unfolding is_missing is_supported_method text_eq
reactivation_is_forgotten_example =
    reactivation_is_forgotten platform suppressed_record review (failure "malformed_anchor") refl
      (λ e. cc)
