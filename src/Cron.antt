-- ===== src/Cron.antt =====
-- lib/scheduled/cronAuth.ts, lib/scheduled/cronTimestamp.ts and lib/scheduled/http.ts: who may run the
-- scheduled refresh. `new Date(text).getTime()` is the parameter `parse_date`, the SHA-256 digest the
-- parameter `digest`; the runtime configuration, the environment and the clocks are values of `Cron`.
mod Request
mod Window
mod Secrets
mod Gate
mod Tests
use stellar_core.Prelude.{
  Bool, true, false, not, ◌||◌, Option, none, some, [], ◌∷◌, if◌then◌else◌, ◌&&◌,
}
use stellar_core.Prelude.Int.{ℤ, ltb_ℤ}
use stellar_core.Prelude.Result.{Result, ok, ◌>>=◌, ◌>>◌, throw_if, or_throw}
use stellar_core.Prelude.Text.{trim_start, trim_end, Text, text_eq}

pub data CronRotationErrorCode : Type 0 where
  missing_primary_secret duplicate_rotation_secret : CronRotationErrorCode
  invalid_rotation_timestamp : CronRotationErrorCode

pub record CronRotationConfigInput : Type 0 where
  pub primary_secret : Option Text
  pub previous_secret : Option Text
  pub rotation_until : Option Text

pub record ResolvedCronRotation : Type 0 where
  pub primary : Text
  pub previous : Option Text
  pub rotation_until : Option ℤ
  pub overlap_active : Bool

unfoldable pub non_empty : Text → Option Text
non_empty [] = none
non_empty (c ∷ s) = some (c ∷ s)

-- `normalizeOptional`.
unfoldable pub normalize_optional : Option Text → Option Text
unfolding non_empty
normalize_optional none = none
normalize_optional (some value) = non_empty (trim_start (trim_end value))

-- `requirePrimary`.
unfoldable pub require_primary : Option Text → Result CronRotationErrorCode Text
require_primary value = or_throw (normalize_optional value) missing_primary_secret

abbrev pub is_given : Option Text → Bool
is_given none = false
is_given (some s) = true

abbrev pub text_or_empty : Option Text → Text
text_or_empty none = []
text_or_empty (some s) = s

unfoldable pub same_as : Option Text → Text → Bool
same_as none primary = false
same_as (some previous) primary = text_eq previous primary

abbrev pub has_value : Option ℤ → Bool
has_value none = false
has_value (some t) = true

-- `previous && rotationUntil ? { previous, rotationUntil } : {}`.
unfoldable pub kept_previous : Option Text → Option ℤ → Option Text
kept_previous (some previous) (some until) = some previous
kept_previous _ _ = none

unfoldable pub kept_until : Option Text → Option ℤ → Option ℤ
kept_until (some previous) (some until) = some until
kept_until _ _ = none

module _ (parse_date : Text → Option ℤ) where
  unfoldable pub parse_rotation_timestamp : Option Text → Result CronRotationErrorCode ℤ
  parse_rotation_timestamp value = do
    throw_if (not (is_given (normalize_optional value))) invalid_rotation_timestamp
    or_throw (parse_date (text_or_empty value)) invalid_rotation_timestamp

  -- The timestamp is read where either optional value is set.
  unfoldable pub read_rotation : Option Text → Option Text → Result CronRotationErrorCode (Option ℤ)
  read_rotation previous value =
      if is_given previous || is_given (normalize_optional value)
      then (do until ← parse_rotation_timestamp value; ok (some until))
      else ok none

  -- `previous && rotationUntil && rotationUntil.getTime() > now()`.
  unfoldable pub is_overlap : Option Text → Option ℤ → ℤ → Bool
  is_overlap (some previous) (some until) now = ltb_ℤ now until
  is_overlap _ _ now = false

  unfoldable pub resolve_cron_rotation :
      CronRotationConfigInput → ℤ → Result CronRotationErrorCode ResolvedCronRotation
  resolve_cron_rotation input now = do
    primary ← require_primary input.primary_secret
    throw_if (same_as (normalize_optional input.previous_secret) primary) duplicate_rotation_secret
    until ← read_rotation (normalize_optional input.previous_secret) input.rotation_until
    throw_if (is_given (normalize_optional input.previous_secret) && not (has_value until))
        invalid_rotation_timestamp
    ok (record {
      primary = primary;
      previous = kept_previous (normalize_optional input.previous_secret) until;
      rotation_until = kept_until (normalize_optional input.previous_secret) until;
      overlap_active = is_overlap (normalize_optional input.previous_secret) until now;
    })
