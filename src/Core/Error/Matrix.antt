-- ===== src/Core/Error/Matrix.antt =====
-- crates/moaray-core/src/error.rs: how the envelope matrix and the classifications agree.
use moaray.Base.{ℕ, String, ◌≤◌, ◌<◌, ◌≡◌, ◌⊎◌, arith}
use moaray.Core.Error.{
  Error, type_invalid_request, type_api_error, type_rate_limit, envelope, invalid_api_key,
}

abbrev pub FitsStatus : ℕ → String → Type 0
FitsStatus status t =
    ((status ≡ 429) × (t ≡ type_rate_limit))
    ⊎ ((400 ≤ status) × (status < 429) × (t ≡ type_invalid_request))
    ⊎ ((500 ≤ status) × (status < 505) × (t ≡ type_api_error))

-- The envelope of every error fits its status: a 429 has type `rate_limit_error`, a status from 400
-- to 428 `invalid_request_error`, one from 500 to 504 `api_error`, and there is no other status.
pub envelope-FitsStatus : (e : Error) → FitsStatus (envelope e).status (envelope e).error_type
unfolding envelope
envelope-FitsStatus invalid_api_key = ground arith
envelope-FitsStatus e = ground arith
