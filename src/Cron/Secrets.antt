-- ===== src/Cron/Secrets.antt =====
-- lib/scheduled/cronAuth.ts: which bearer tokens are accepted.
use stellar_core.Prelude.{
  ◌≡◌, refl, ◌∙◌, ◌⊎◌, inl, inr, Bool, true, false, not, ◌||◌, Option, none, some, arith,
  if◌then◌else◌, Bool-cases, Option-cases, ◌&&◌,
}
use stellar_core.Prelude.Int.{ℤ, ltb_ℤ}
use stellar_core.Prelude.Result.{
  Result, ok, throws, or_throw, Ends, Ends->>=, Ends-or_throw, Ends-guard,
}
use stellar_core.Prelude.Text.{Text, text_eq, text_eq_iff}
use stellar_core.Cron.{
  CronRotationErrorCode, missing_primary_secret, duplicate_rotation_secret,
  invalid_rotation_timestamp, CronRotationConfigInput, ResolvedCronRotation, normalize_optional,
  require_primary, is_given, text_or_empty, same_as, parse_rotation_timestamp, read_rotation,
  is_overlap, resolve_cron_rotation, has_value, kept_previous,
}
use stellar_core.Cron.Request.{
  CronEnvironment, CronDependencies, or_given, or_option, bearer_token, primary_of, same_digest,
  authenticates, authorized_by, input_of, has_valid_cron_authorization,
}

-- The token is the primary secret.
abbrev pub IsPrimary : CronEnvironment → CronDependencies → Text → Type 0
IsPrimary env d token =
    (configured : Option Text) × (secret : Text) × (primary_of env d.cron_secret ≡ some configured)
    × (normalize_optional configured ≡ some secret)
    × (env.digest secret ≡ env.digest token)

-- The token is the previous secret, and the end of the rotation is a time in the future.
abbrev pub IsPrevious : CronEnvironment → CronDependencies → Text → Type 0
IsPrevious env d token =
    (secret : Text) × (until : ℤ) × (normalize_optional
        (or_option d.cron_previous_secret env.environment_previous)
      ≡ some secret)
    × (env.parse_date (text_or_empty (or_option d.cron_rotation_until env.environment_until))
        ≡ some until)
    × (ltb_ℤ (or_given d.cron_now env.now) until ≡ true)
    × (env.digest secret ≡ env.digest token)

abbrev pub IsAuthorized : CronEnvironment → CronDependencies → Option Text → Type 0
IsAuthorized env d authorization =
    (token : Text) × (bearer_token authorization ≡ some token)
    × (IsPrimary env d token ⊎ IsPrevious env d token)

-- How a rotation resolves.
abbrev IsResolved : (Text → Option ℤ) → CronRotationConfigInput → ℤ → ResolvedCronRotation → Type 0
IsResolved parse_date input now r =
    (normalize_optional input.primary_secret ≡ some r.primary)
    × ((secret : Text)
        → r.previous ≡ some secret
        → normalize_optional input.previous_secret ≡ some secret)
    × (r.overlap_active ≡ true
        → (until : ℤ) × (parse_date (text_or_empty input.rotation_until) ≡ some until)
          × (ltb_ℤ now until ≡ true))

Ends-if :
    {E A : Type 0} (P : A → Type 0) (T : E → Type 0) (b : Bool) (x y : Result E A)
    → Ends P T x
    → Ends P T y
    → Ends P T (if b then x else y)
Ends-if P T true x y h k = h
Ends-if P T false x y h k = k

abbrev IsRead : (Text → Option ℤ) → Option Text → Option ℤ → Type 0
IsRead parse_date value o =
    (until : ℤ) → o ≡ some until → parse_date (text_or_empty value) ≡ some until

parse_rotation_timestamp-Ends :
    (parse_date : Text → Option ℤ) (value : Option Text)
    → Ends
        (λ t. parse_date (text_or_empty value) ≡ some t)
        (λ _. Unit)
        (parse_rotation_timestamp parse_date value)
unfolding parse_rotation_timestamp
parse_rotation_timestamp-Ends parse_date value =
    Ends-guard _ (λ _. Unit) (not (is_given (normalize_optional value))) invalid_rotation_timestamp
      (or_throw (parse_date (text_or_empty value)) invalid_rotation_timestamp) tt
      (λ _.
        Ends-or_throw (λ _. Unit) (parse_date (text_or_empty value)) invalid_rotation_timestamp tt)

read_rotation-Ends :
    (parse_date : Text → Option ℤ) (previous value : Option Text)
    → Ends (IsRead parse_date value) (λ _. Unit) (read_rotation parse_date previous value)
unfolding read_rotation
read_rotation-Ends parse_date previous value =
    Ends-if (IsRead parse_date value) (λ _. Unit)
      (is_given previous || is_given (normalize_optional value)) _ _
      (Ends->>= _ (IsRead parse_date value) (λ _. Unit) (parse_rotation_timestamp parse_date value)
        _ (parse_rotation_timestamp-Ends parse_date value) (λ t e until f. e ∙ f))
      (λ until f. cc)

is_overlap_lem :
    (parse_date : Text → Option ℤ) (previous : Option Text) (o : Option ℤ) (now : ℤ)
    → is_overlap parse_date previous o now ≡ true
    → (until : ℤ) × (o ≡ some until) × (ltb_ℤ now until ≡ true)
unfolding is_overlap
is_overlap_lem parse_date (some previous) (some until) now e = (until, refl, e)
is_overlap_lem parse_date (some previous) none now e = cc
is_overlap_lem parse_date none o now e = cc

kept_previous_lem :
    (previous : Option Text) (o : Option ℤ) (secret : Text)
    → kept_previous previous o ≡ some secret
    → previous ≡ some secret
unfolding kept_previous
kept_previous_lem (some previous) (some until) secret f = f
kept_previous_lem (some previous) none secret f = cc
kept_previous_lem none o secret f = cc

resolve-Ends :
    (parse_date : Text → Option ℤ) (input : CronRotationConfigInput) (now : ℤ)
    → Ends
        (IsResolved parse_date input now)
        (λ _. Unit)
        (resolve_cron_rotation parse_date input now)
unfolding resolve_cron_rotation require_primary
resolve-Ends parse_date input now =
    let Q = IsResolved parse_date input now in
    let previous = normalize_optional input.previous_secret in
    Ends->>= (λ s. normalize_optional input.primary_secret ≡ some s) Q (λ _. Unit)
      (or_throw (normalize_optional input.primary_secret) missing_primary_secret) _
      (Ends-or_throw (λ _. Unit) _ missing_primary_secret tt)
      (λ primary e.
        Ends-guard Q (λ _. Unit) (same_as previous primary) duplicate_rotation_secret _ tt
          (λ _.
            Ends->>= (IsRead parse_date input.rotation_until) Q (λ _. Unit)
              (read_rotation parse_date previous input.rotation_until) _
              (read_rotation-Ends parse_date previous input.rotation_until)
              (λ o r.
                Ends-guard Q (λ _. Unit) (is_given previous && not (has_value o))
                  invalid_rotation_timestamp _ tt
                  (λ _. (
                    e,
                    (λ secret f. kept_previous_lem previous o secret f),
                    λ active.
                        let (until, f, g) = is_overlap_lem parse_date previous o now active in
                        (until, r until f, g),
                  )))))

same_digest_lem :
    (digest : Text → Text) (o : Option Text) (token : Text)
    → same_digest digest o token ≡ true
    → (secret : Text) × (o ≡ some secret) × (digest secret ≡ digest token)
unfolding same_digest
same_digest_lem digest none token e = cc
same_digest_lem digest (some secret) token e = (secret, refl, (text_eq_iff _ _).0 e)

authenticates_lem :
    (env : CronEnvironment) (d : CronDependencies) (configured : Option Text)
    (r : ResolvedCronRotation) (token : Text)
    → primary_of env d.cron_secret ≡ some configured
    → IsResolved env.parse_date (input_of env d configured) (or_given d.cron_now env.now) r
    → authenticates env.digest r (some token) ≡ true
    → IsPrimary env d token ⊎ IsPrevious env d token
unfolding authenticates same_digest input_of
authenticates_lem env d configured r token e (p, q, o) h =
    elim (Bool-cases (text_eq (env.digest r.primary) (env.digest token))) [
      | inl s ↦ inl (configured, r.primary, e, p, (text_eq_iff _ _).0 s)
      | inr s ↦
          let active : r.overlap_active ≡ true = ground (arith, h, s) in
          let same : same_digest env.digest r.previous token ≡ true = ground (arith, h, s) in
          let (secret, f, g) = same_digest_lem env.digest r.previous token same in
          let (until, u, l) = o active in inr (secret, until, q secret f, u, l, g)
    ]

authorized_by_lem :
    (env : CronEnvironment) (d : CronDependencies) (configured : Option Text)
    (r : Result CronRotationErrorCode ResolvedCronRotation) (token : Option Text)
    → primary_of env d.cron_secret ≡ some configured
    → Ends
        (IsResolved env.parse_date (input_of env d configured) (or_given d.cron_now env.now))
        (λ _. Unit)
        r
    → authorized_by env.digest r token ≡ true
    → (t : Text) × (token ≡ some t) × (IsPrimary env d t ⊎ IsPrevious env d t)
unfolding authorized_by authenticates
authorized_by_lem env d configured (throws e) token f h g = cc
authorized_by_lem env d configured (ok r) none f h g = cc
authorized_by_lem env d configured (ok r) (some t) f h g =
    (t, refl, authenticates_lem env d configured r t f h g)

pub authorized_lem :
    (env : CronEnvironment) (d : CronDependencies) (authorization : Option Text)
    → has_valid_cron_authorization env d authorization ≡ true
    → IsAuthorized env d authorization
unfolding has_valid_cron_authorization
authorized_lem env d authorization h = elim (Option-cases (primary_of env d.cron_secret)) [
  | inl e ↦ absurd (ground (arith, h, e))
  | inr (configured, e) ↦
      authorized_by_lem env d configured
        (resolve_cron_rotation env.parse_date (input_of env d configured)
          (or_given d.cron_now env.now))
        (bearer_token authorization) e (resolve-Ends env.parse_date _ _) (ground (arith, h, e))
]
