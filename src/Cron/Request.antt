-- ===== src/Cron/Request.antt =====
-- lib/scheduled/cronAuth.ts, lib/scheduled/cronTimestamp.ts, lib/scheduled/http.ts: one request.
use stellar_core.Prelude.{
  ℕ, Bool, true, false, not, ◌&&◌, ◌||◌, Option, none, some, [], ◌∷◌, if◌then◌else◌,
}
use stellar_core.Prelude.Int.{ℤ, pos, ◌+ℤ◌, ◌-ℤ◌, ltb_ℤ, leb_ℤ, Date, get_time}
use stellar_core.Prelude.Result.{Result, ok, throws}
use stellar_core.Prelude.Text.{strip_prefix, is_space, Text, codes, text_eq}
use stellar_core.Cron.{
  CronRotationErrorCode, CronRotationConfigInput, ResolvedCronRotation, normalize_optional,
  resolve_cron_rotation,
}

abbrev pub default_cron_timestamp_skew_ms : ℕ
default_cron_timestamp_skew_ms = 300000

abbrev pub max_safe_integer : ℕ
max_safe_integer = 9007199254740991

pub data CronTimestampDecision : Type 0 where
  within_window timestamp_expired timestamp_future timestamp_invalid : CronTimestampDecision

-- What the platform and the deployment supply. `configured_secret` is that of the runtime
-- configuration, where `none` stands for a thrown error.
pub record CronEnvironment : Type 0 where
  pub parse_date : Text → Option ℤ
  pub digest : Text → Text
  pub configured_secret : Option (Option Text)
  pub environment_previous : Option Text
  pub environment_until : Option Text
  pub now : ℤ
  pub now_date : Date

-- `ScheduledRefreshHttpDependencies`, without `run`.
pub record CronDependencies : Type 0 where
  pub cron_secret : Option Text
  pub cron_previous_secret : Option Text
  pub cron_rotation_until : Option Text
  pub cron_now : Option ℤ
  pub cron_timestamp_now : Option Date
  pub cron_timestamp_skew_ms : Option ℤ

pub record CronRequest : Type 0 where
  pub authorization : Option Text
  pub cron_timestamp : Option Text

abbrev pub or_given : {A : Type 0} → Option A → A → A
or_given none other = other
or_given (some a) other = a

abbrev pub or_option : {A : Type 0} → Option A → Option A → Option A
or_option none other = other
or_option (some a) other = some a

unfoldable pub no_space : Text → Bool
no_space [] = true
no_space (c ∷ s) = not (is_space c) && no_space s

unfoldable pub token_of : Option Text → Option Text
token_of none = none
token_of (some []) = none
token_of (some (c ∷ s)) = if no_space (c ∷ s) then some (c ∷ s) else none

-- The match of `/^Bearer ([^\s]+)$/`.
unfoldable pub bearer_token : Option Text → Option Text
bearer_token authorization = token_of (strip_prefix (codes "Bearer ") (or_given authorization []))

-- `secret ?? getRuntimeConfig().cronSecret`.
unfoldable pub primary_of : CronEnvironment → Option Text → Option (Option Text)
primary_of env (some secret) = some (some secret)
primary_of env none = env.configured_secret

unfoldable pub same_digest : (Text → Text) → Option Text → Text → Bool
same_digest digest none token = false
same_digest digest (some secret) token = text_eq (digest secret) (digest token)

unfoldable pub authenticates : (Text → Text) → ResolvedCronRotation → Option Text → Bool
authenticates digest rotation none = false
authenticates digest rotation (some token) =
    same_digest digest (some rotation.primary) token
    || (rotation.overlap_active && same_digest digest rotation.previous token)

unfoldable pub authorized_by :
    (Text → Text) → Result CronRotationErrorCode ResolvedCronRotation → Option Text → Bool
authorized_by digest (throws e) token = false
authorized_by digest (ok rotation) token = authenticates digest rotation token

unfoldable pub input_of : CronEnvironment → CronDependencies → Option Text → CronRotationConfigInput
input_of env d primary = record {
  primary_secret = primary;
  previous_secret = or_option d.cron_previous_secret env.environment_previous;
  rotation_until = or_option d.cron_rotation_until env.environment_until;
}

unfoldable pub has_valid_cron_authorization :
    CronEnvironment → CronDependencies → Option Text → Bool
has_valid_cron_authorization env d authorization = elim (primary_of env d.cron_secret) [
  | none ↦ false
  | some primary ↦
      authorized_by env.digest
        (resolve_cron_rotation env.parse_date (input_of env d primary)
          (or_given d.cron_now env.now))
        (bearer_token authorization)
]

-- `Number.isSafeInteger(skewMs) && skewMs >= 0`, for an integer.
unfoldable pub is_safe_skew : ℤ → Bool
is_safe_skew skew = leb_ℤ (pos 0) skew && leb_ℤ skew (pos max_safe_integer)

unfoldable pub place_in_window : ℤ → ℤ → ℤ → CronTimestampDecision
place_in_window skew presented now =
    if ltb_ℤ presented (now -ℤ skew)
    then timestamp_expired
    else if ltb_ℤ (now +ℤ skew) presented
    then timestamp_future
    else within_window

unfoldable pub decide_times : ℤ → Option ℤ → Option ℤ → CronTimestampDecision
decide_times skew (some presented) (some now) = place_in_window skew presented now
decide_times skew _ _ = timestamp_invalid

unfoldable pub presented_time : (Text → Option ℤ) → Option Text → Option ℤ
presented_time parse_date timestamp = elim (normalize_optional timestamp) [
  | none ↦ none
  | some presented ↦ parse_date presented
]

unfoldable pub evaluate_cron_timestamp :
    (Text → Option ℤ) → Option Text → Date → Option ℤ → CronTimestampDecision
evaluate_cron_timestamp parse_date timestamp now allowed_skew_ms =
    let skew = or_given allowed_skew_ms (pos default_cron_timestamp_skew_ms) in
    if not (is_safe_skew skew)
    then timestamp_invalid
    else decide_times skew (presented_time parse_date timestamp) (get_time now)

unfoldable pub is_within : CronTimestampDecision → Bool
is_within within_window = true
is_within _ = false

-- The timestamp is tested where one is presented or a clock is injected for it.
unfoldable pub passes_timestamp : CronEnvironment → CronDependencies → Option Text → Bool
passes_timestamp env d none = elim d.cron_timestamp_now [
  | none ↦ true
  | some now ↦ is_within (evaluate_cron_timestamp env.parse_date none now d.cron_timestamp_skew_ms)
]
passes_timestamp env d (some timestamp) = is_within (
    evaluate_cron_timestamp env.parse_date (some timestamp)
      (or_given d.cron_timestamp_now env.now_date) d.cron_timestamp_skew_ms)

-- The three statuses, 200 with the result of the run.
pub data CronResponse (B : Type 0) : Type 0 where
  unauthorized internal_error : CronResponse B
  refreshed : B → CronResponse B

module _ {S B : Type 0} where
  unfoldable pub respond : S × Option B → S × CronResponse B
  respond (s, none) = (s, internal_error)
  respond (s, some b) = (s, refreshed b)

  unfoldable pub get_scheduled_refresh_response :
      CronEnvironment → CronDependencies → (S → S × Option B) → CronRequest → S → S × CronResponse B
  get_scheduled_refresh_response env d run request s =
      if not (has_valid_cron_authorization env d request.authorization)
      then (s, unauthorized)
      else if not (passes_timestamp env d request.cron_timestamp)
      then (s, unauthorized)
      else respond (run s)
