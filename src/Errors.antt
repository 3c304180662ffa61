-- ===== src/Errors.antt =====
-- The values that a failed SEP operation throws, as lib/stellar/sep1.ts and lib/stellar/sep38.ts
-- declare their codes and as lib/stellar/retry.ts and lib/stellar/anchorHealth.ts inspect them.
use stellar_core.Prelude.{ℕ, Bool, Option}
use stellar_core.Prelude.Text.{Text}

-- `Sep1ErrorCode` and `Sep38ErrorCode` in one type, with any other string as `other_code`.
pub data ErrorCode : Type 0 where
  invalid_home_domain invalid_toml missing_required_data : ErrorCode
  invalid_asset invalid_quote_server invalid_request authentication_required : ErrorCode
  redirect invalid_content_type invalid_json : ErrorCode
  timeout network_failure egress_policy http_failure response_too_large invalid_data : ErrorCode
  other_code : Text → ErrorCode

-- A thrown value: a primitive, `null` included, or an object with the properties that are read.
-- `is_error` is `instanceof Error`, `is_abort` is a `DOMException` named "AbortError", a missing
-- property or one of another type is `none`, and `retry_after` is the header that the error's
-- `responseHeaders` carry under "retry-after".
pub record ThrownObject : Type 0 where
  pub is_error : Bool
  pub is_abort : Bool
  pub code : Option ErrorCode
  pub status : Option ℕ
  pub retry_after : Option Text

pub data Thrown : Type 0 where
  primitive : Thrown
  object : ThrownObject → Thrown
