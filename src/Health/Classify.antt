-- ===== src/Health/Classify.antt =====
-- lib/stellar/anchorHealth.ts: the evidence class of a discovery failure.
use stellar_core.Prelude.{
  ℕ, ◌≤◌, ◌<◌, ◌≡◌, refl, ◌↔◌, Bool, false, ◌&&◌, Option, none, some, arith, ltb, leb,
  if◌then◌else◌,
}
use stellar_core.Errors.{
  ErrorCode, ThrownObject, Thrown, primitive, object, invalid_home_domain, invalid_toml,
  invalid_data, missing_required_data, timeout, network_failure, response_too_large, http_failure,
}
use stellar_core.Health.{AnchorFailureClass, transient, deterministic, unknown_class}

-- `typeof status === "number" && status >= 400 && status < 500`.
abbrev pub is_client_error : Option ℕ → Bool
is_client_error none = false
is_client_error (some status) = leb 400 status && ltb status 500

classify_code : Option ErrorCode → Option ℕ → AnchorFailureClass
classify_code none status = unknown_class
classify_code (some invalid_home_domain) status = deterministic
classify_code (some invalid_toml) status = deterministic
classify_code (some invalid_data) status = deterministic
classify_code (some missing_required_data) status = deterministic
classify_code (some timeout) status = transient
classify_code (some network_failure) status = transient
classify_code (some response_too_large) status = transient
classify_code (some http_failure) status =
    if is_client_error status then deterministic else transient
classify_code (some _) status = unknown_class

unfoldable pub classify_anchor_failure : Thrown → AnchorFailureClass
unfolding classify_code
classify_anchor_failure primitive = unknown_class
classify_anchor_failure (object e) = classify_code e.code e.status

-- The codes that no retry can mend, as the taxonomy of types/anchorHealth.ts lists them.
pub data IsPermanent : Option ErrorCode → Option ℕ → Type 0 where
  home_domain : {status : Option ℕ} → IsPermanent (some invalid_home_domain) status
  toml : {status : Option ℕ} → IsPermanent (some invalid_toml) status
  structure : {status : Option ℕ} → IsPermanent (some invalid_data) status
  missing : {status : Option ℕ} → IsPermanent (some missing_required_data) status
  gone : {status : ℕ} → 400 ≤ status → status < 500 → IsPermanent (some http_failure) (some status)

classify_code-IsPermanent :
    (code : Option ErrorCode) (status : Option ℕ)
    → classify_code code status ≡ deterministic
    → IsPermanent code status
unfolding classify_code
classify_code-IsPermanent none status h = cc
classify_code-IsPermanent (some invalid_home_domain) status h = home_domain
classify_code-IsPermanent (some invalid_toml) status h = toml
classify_code-IsPermanent (some invalid_data) status h = structure
classify_code-IsPermanent (some missing_required_data) status h = missing
classify_code-IsPermanent (some http_failure) none h = cc
classify_code-IsPermanent (some http_failure) (some status) h = gone (ground arith) (ground arith)
classify_code-IsPermanent (some _) status h = cc

IsPermanent-classify_code :
    {code : Option ErrorCode} {status : Option ℕ}
    → IsPermanent code status
    → classify_code code status ≡ deterministic
unfolding classify_code
IsPermanent-classify_code home_domain = refl
IsPermanent-classify_code toml = refl
IsPermanent-classify_code structure = refl
IsPermanent-classify_code missing = refl
IsPermanent-classify_code (gone above below) = ground arith

-- A thrown object is classified DETERMINISTIC exactly when its code is one of the four structural
-- codes, or HTTP_FAILURE with a status from 400 to 499.
pub classify_anchor_failure-deterministic_iff :
    (e : ThrownObject)
    → (classify_anchor_failure (object e) ≡ deterministic) ↔ IsPermanent e.code e.status
unfolding classify_anchor_failure
classify_anchor_failure-deterministic_iff e =
    (classify_code-IsPermanent e.code e.status, IsPermanent-classify_code)
