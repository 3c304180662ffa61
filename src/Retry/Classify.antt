-- ===== src/Retry/Classify.antt =====
-- lib/stellar/retry.ts: `classifySep1Error`, `classifySep38Error` and `classifyHttpFailure`. An
-- error carries the Retry-After header of its response, as `responseHeadersFrom` reads it.
use stellar_core.Prelude.{
  ℕ, ◌≤◌, ◌<◌, ◌≡◌, refl, ◌≢◌, ◌↔◌, ◌⊎◌, true, ◌&&◌, Option, none, some, arith, ltb, leb, ◌==◌,
  if◌then◌else◌, inl, inr, Bool, false, ap, ==_iff, Bool-cases,
}
use stellar_core.Prelude.Int.{ℤ, pos}
use stellar_core.Prelude.Text.{Text}
use stellar_core.Errors.{
  ErrorCode, invalid_home_domain, invalid_toml, missing_required_data, invalid_asset,
  invalid_quote_server, invalid_request, authentication_required, redirect, invalid_content_type,
  invalid_json, timeout, network_failure, egress_policy, http_failure, response_too_large,
  invalid_data, ThrownObject, Thrown, primitive, object,
}
use stellar_core.Retry.{ErrorClassification, retryable, non_retryable, retryable_with_retry_after}
use stellar_core.Retry.Header.{parse_retry_after}

module _ (parse_date : Text → Option ℤ) (now : ℤ) where
  -- `parseRetryAfter(responseHeaders)`, with no ceiling.
  after_rate_limit : Option ℕ → ErrorClassification
  after_rate_limit none = retryable
  after_rate_limit (some ms) = retryable_with_retry_after (some (pos ms))

  classify_status : Option ℕ → Option Text → ErrorClassification
  unfolding after_rate_limit
  classify_status none header = non_retryable
  classify_status (some status) header =
      if status == 429
      then after_rate_limit (parse_retry_after parse_date header none now)
      else if leb 500 status && ltb status 600
      then retryable
      else non_retryable

  classify_http_failure : ThrownObject → ErrorClassification
  unfolding classify_status
  classify_http_failure e = classify_status e.status e.retry_after

  sep1_code : Option ErrorCode → ThrownObject → ErrorClassification
  unfolding classify_http_failure
  sep1_code (some invalid_home_domain) e = non_retryable
  sep1_code (some invalid_toml) e = non_retryable
  sep1_code (some invalid_data) e = non_retryable
  sep1_code (some missing_required_data) e = non_retryable
  sep1_code (some response_too_large) e = non_retryable
  sep1_code (some http_failure) e = classify_http_failure e
  sep1_code (some egress_policy) e = retryable
  sep1_code (some timeout) e = retryable
  sep1_code (some network_failure) e = retryable
  sep1_code _ e = non_retryable

  unfoldable pub classify_sep1_error : Thrown → ErrorClassification
  unfolding sep1_code
  classify_sep1_error primitive = non_retryable
  classify_sep1_error (object e) = if e.is_error then sep1_code e.code e else non_retryable

  sep38_code : Option ErrorCode → ThrownObject → ErrorClassification
  unfolding classify_http_failure
  sep38_code (some invalid_asset) e = non_retryable
  sep38_code (some invalid_quote_server) e = non_retryable
  sep38_code (some invalid_request) e = non_retryable
  sep38_code (some authentication_required) e = non_retryable
  sep38_code (some redirect) e = non_retryable
  sep38_code (some response_too_large) e = non_retryable
  sep38_code (some invalid_content_type) e = non_retryable
  sep38_code (some invalid_json) e = non_retryable
  sep38_code (some invalid_data) e = non_retryable
  sep38_code (some http_failure) e = classify_http_failure e
  sep38_code (some egress_policy) e = retryable
  sep38_code (some timeout) e = retryable
  sep38_code (some network_failure) e = retryable
  sep38_code _ e = non_retryable

  unfoldable pub classify_sep38_error : Thrown → ErrorClassification
  unfolding sep38_code
  classify_sep38_error primitive = non_retryable
  classify_sep38_error (object e) = if e.is_error then sep38_code e.code e else non_retryable

-- The failures that the policy retries.
abbrev pub IsTransientStatus : Option ℕ → Type 0
IsTransientStatus none = ⊥
IsTransientStatus (some status) = (status ≡ 429) ⊎ ((500 ≤ status) × (status < 600))

abbrev pub IsTransientCode : Option ErrorCode → Option ℕ → Type 0
IsTransientCode (some timeout) status = Unit
IsTransientCode (some network_failure) status = Unit
IsTransientCode (some egress_policy) status = Unit
IsTransientCode (some http_failure) status = IsTransientStatus status
IsTransientCode _ status = ⊥

classify_status-retries_iff :
    (parse_date : Text → Option ℤ) (now : ℤ) (status : Option ℕ) (header : Option Text)
    → (classify_status parse_date now status header ≢ non_retryable) ↔ IsTransientStatus status
unfolding classify_status
classify_status-retries_iff parse_date now none header = ((λ h. h refl), λ h. absurd h)
classify_status-retries_iff parse_date now (some status) header = ground arith

sep1_code-retries_iff :
    (parse_date : Text → Option ℤ) (now : ℤ) (code : Option ErrorCode) (e : ThrownObject)
    → (sep1_code parse_date now code e ≢ non_retryable) ↔ IsTransientCode code e.status
unfolding sep1_code classify_http_failure
sep1_code-retries_iff parse_date now (some http_failure) e =
    classify_status-retries_iff parse_date now e.status e.retry_after
sep1_code-retries_iff parse_date now (some egress_policy) e = ((λ h. tt), λ h. cc)
sep1_code-retries_iff parse_date now (some timeout) e = ((λ h. tt), λ h. cc)
sep1_code-retries_iff parse_date now (some network_failure) e = ((λ h. tt), λ h. cc)
sep1_code-retries_iff parse_date now none e = ((λ h. h refl), λ h. absurd h)
sep1_code-retries_iff parse_date now (some _) e = ((λ h. h refl), λ h. absurd h)

sep38_code-retries_iff :
    (parse_date : Text → Option ℤ) (now : ℤ) (code : Option ErrorCode) (e : ThrownObject)
    → (sep38_code parse_date now code e ≢ non_retryable) ↔ IsTransientCode code e.status
unfolding sep38_code classify_http_failure
sep38_code-retries_iff parse_date now (some http_failure) e =
    classify_status-retries_iff parse_date now e.status e.retry_after
sep38_code-retries_iff parse_date now (some egress_policy) e = ((λ h. tt), λ h. cc)
sep38_code-retries_iff parse_date now (some timeout) e = ((λ h. tt), λ h. cc)
sep38_code-retries_iff parse_date now (some network_failure) e = ((λ h. tt), λ h. cc)
sep38_code-retries_iff parse_date now none e = ((λ h. h refl), λ h. absurd h)
sep38_code-retries_iff parse_date now (some _) e = ((λ h. h refl), λ h. absurd h)

iff_under :
    (b : Bool) (c : ErrorClassification) {P : Type 0}
    → (c ≢ non_retryable) ↔ P
    → ((if b then c else non_retryable) ≢ non_retryable) ↔ ((b ≡ true) × P)
iff_under true c h = ((λ n. (refl, h.0 n)), λ (e, p). h.1 p)
iff_under false c h = ((λ n. absurd (n refl)), λ (e, p). cc)

-- A thrown value that the policy retries; a primitive, `null` included, is none.
abbrev pub IsTransient : Thrown → Type 0
IsTransient primitive = ⊥
IsTransient (object e) = (e.is_error ≡ true) × IsTransientCode e.code e.status

-- Both classifiers retry an `Error` exactly when its code is TIMEOUT, NETWORK_FAILURE or
-- EGRESS_POLICY, or HTTP_FAILURE with status 429 or 500 to 599; nothing else that is thrown is
-- retried, a primitive included.
pub classifiers_retry_iff :
    (parse_date : Text → Option ℤ) (now : ℤ) (error : Thrown)
    → ((classify_sep1_error parse_date now error ≢ non_retryable) ↔ IsTransient error)
      × ((classify_sep38_error parse_date now error ≢ non_retryable) ↔ IsTransient error)
unfolding classify_sep1_error classify_sep38_error
classifiers_retry_iff parse_date now primitive =
    (((λ h. h refl), λ h. absurd h), ((λ h. h refl), λ h. absurd h))
classifiers_retry_iff parse_date now (object e) = (
  iff_under e.is_error _ (sep1_code-retries_iff parse_date now e.code e),
  iff_under e.is_error _ (sep38_code-retries_iff parse_date now e.code e),
)

module _ (parse_date : Text → Option ℤ) (now : ℤ) (d : Option ℤ) where
  -- The delay is the one that the header of a 429 response gives.
  abbrev pub IsHeaderDelay : Option ℕ → Option Text → Type 0
  IsHeaderDelay status header =
      (status ≡ some 429)
      × ((ms : ℕ) × (d ≡ some (pos ms)) × (parse_retry_after parse_date header none now ≡ some ms))

  after_rate_limit-delay :
      (parsed : Option ℕ)
      → after_rate_limit parse_date now parsed ≡ retryable_with_retry_after d
      → (ms : ℕ) × (d ≡ some (pos ms)) × (parsed ≡ some ms)
  unfolding after_rate_limit
  after_rate_limit-delay none h = cc
  after_rate_limit-delay (some ms) h = (ms, cc, refl)

  classify_status-delay :
      (status : Option ℕ) (header : Option Text)
      → classify_status parse_date now status header ≡ retryable_with_retry_after d
      → IsHeaderDelay status header
  unfolding classify_status
  classify_status-delay none header h = cc
  classify_status-delay (some status) header h = elim (Bool-cases (status == 429)) [
    | inl limited ↦ (ap some ((==_iff _ _).0 limited), after_rate_limit-delay _ (rw limited at h))
    | inr other ↦ absurd (ground arith)
  ]

  sep1_code-delay :
      (code : Option ErrorCode) (e : ThrownObject)
      → sep1_code parse_date now code e ≡ retryable_with_retry_after d
      → (code ≡ some http_failure) × IsHeaderDelay e.status e.retry_after
  unfolding sep1_code classify_http_failure
  sep1_code-delay (some http_failure) e h = (refl, classify_status-delay e.status e.retry_after h)
  sep1_code-delay none e h = cc
  sep1_code-delay (some _) e h = cc

  sep38_code-delay :
      (code : Option ErrorCode) (e : ThrownObject)
      → sep38_code parse_date now code e ≡ retryable_with_retry_after d
      → (code ≡ some http_failure) × IsHeaderDelay e.status e.retry_after
  unfolding sep38_code classify_http_failure
  sep38_code-delay (some http_failure) e h = (refl, classify_status-delay e.status e.retry_after h)
  sep38_code-delay none e h = cc
  sep38_code-delay (some _) e h = cc

under_error :
    (b : Bool) (c : ErrorClassification) (d : Option ℤ)
    → (if b then c else non_retryable) ≡ retryable_with_retry_after d
    → c ≡ retryable_with_retry_after d
under_error b c d h = ground arith

-- Only a response with status 429 is given the delay of its Retry-After header.
pub retry_after_needs_429 :
    (parse_date : Text → Option ℤ) (now : ℤ) (e : ThrownObject) (d : Option ℤ)
    → (classify_sep1_error parse_date now (object e) ≡ retryable_with_retry_after d)
      ⊎ (classify_sep38_error parse_date now (object e) ≡ retryable_with_retry_after d)
    → (e.code ≡ some http_failure) × IsHeaderDelay parse_date now d e.status e.retry_after
unfolding classify_sep1_error classify_sep38_error
retry_after_needs_429 parse_date now e d (inl h) =
    sep1_code-delay parse_date now d e.code e (under_error e.is_error _ d h)
retry_after_needs_429 parse_date now e d (inr h) =
    sep38_code-delay parse_date now d e.code e (under_error e.is_error _ d h)
