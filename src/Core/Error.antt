-- ===== src/Core/Error.antt =====
-- crates/moaray-core/src/error.rs: the gateway's error type, its envelope and its classifications.
pub mod Matrix
use moaray.Base.{ℕ, String, str_append, Bool, true, false}
use moaray.Base.Text.{decimal}

pub data Error : Type 0 where
  invalid_api_key : Error
  model_not_allowed : String → Error
  model_not_found : String → Error
  payload_too_large : Error
  bad_request : String → Error
  upstream_timeout : Error
  upstream_error : Error
  upstream_client_error : Error
  upstream_rate_limited : Error
  upstream_unavailable : Error
  rate_limited : Error
  circuit_open : Error
  unsupported : String → Error
  moa_streaming_unsupported : Error
  moa_quorum_failed : ℕ → ℕ → Error
  internal : Error

abbrev pub type_invalid_request : String
type_invalid_request = "invalid_request_error"

abbrev pub type_api_error : String
type_api_error = "api_error"

abbrev pub type_rate_limit : String
type_rate_limit = "rate_limit_error"

pub record ErrorEnvelope : Type 0 where
  pub status : ℕ
  pub error_type : String
  pub code : String
  pub message : String

-- The `#[error(…)]` texts.
unfoldable pub to_string : Error → String
to_string invalid_api_key = "missing or invalid API key"
to_string (model_not_allowed model) =
    str_append "model `" (str_append model "` is not allowed for this key")
to_string (model_not_found model) = str_append "model `" (str_append model "` not found")
to_string payload_too_large = "request body too large"
to_string (bad_request why) = str_append "invalid request: " why
to_string upstream_timeout = "upstream request timed out"
to_string upstream_error = "upstream returned an error"
to_string upstream_client_error = "upstream returned a client error"
to_string upstream_rate_limited = "upstream rate limited"
to_string upstream_unavailable = "upstream unavailable"
to_string rate_limited = "rate limit exceeded"
to_string circuit_open = "upstream circuit breaker is open"
to_string (unsupported what) = str_append "unsupported: " what
to_string moa_streaming_unsupported = "MoA mode does not support streaming responses"
to_string (moa_quorum_failed succeeded required) = str_append "MoA quorum not met: " (
    str_append (decimal succeeded)
      (str_append "/" (str_append (decimal required) " proposer arms succeeded")))
to_string internal = "internal error"

matrix : Error → ℕ × String × String
matrix invalid_api_key = (401, type_invalid_request, "invalid_api_key")
matrix (model_not_allowed _) = (403, type_invalid_request, "model_not_allowed")
matrix (model_not_found _) = (404, type_invalid_request, "model_not_found")
matrix payload_too_large = (413, type_invalid_request, "payload_too_large")
matrix (bad_request _) = (400, type_invalid_request, "invalid_request")
matrix upstream_timeout = (504, type_api_error, "upstream_timeout")
matrix upstream_error = (502, type_api_error, "upstream_error")
matrix upstream_client_error = (502, type_api_error, "upstream_error")
matrix upstream_rate_limited = (429, type_rate_limit, "upstream_rate_limited")
matrix upstream_unavailable = (502, type_api_error, "upstream_error")
matrix rate_limited = (429, type_rate_limit, "rate_limited")
matrix circuit_open = (503, type_api_error, "circuit_open")
matrix (unsupported _) = (400, type_invalid_request, "unsupported")
matrix moa_streaming_unsupported = (400, type_invalid_request, "moa_streaming_unsupported")
matrix (moa_quorum_failed _ _) = (503, type_api_error, "moa_quorum_failed")
matrix internal = (500, type_api_error, "internal_error")

unfoldable pub envelope : Error → ErrorEnvelope
unfolding matrix
envelope e =
    let (status, error_type, code) = matrix e in
    record { status = status; error_type = error_type; code = code; message = to_string e }

unfoldable pub is_retryable : Error → Bool
is_retryable upstream_unavailable = true
is_retryable _ = false

unfoldable pub counts_against_breaker : Error → Bool
counts_against_breaker upstream_error = true
counts_against_breaker upstream_timeout = true
counts_against_breaker upstream_unavailable = true
counts_against_breaker _ = false
