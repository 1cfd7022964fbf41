-- ===== src/Governed/Examples.antt =====
-- crates/moaray/src/governed.rs on the inputs of its unit tests.
use moaray.Base.{ℕ, zero, suc, ◌≡◌, refl, true, [], ◌∷◌}
use moaray.Base.Result.{Result, ok, err}
use moaray.Core.Error.{Error, is_retryable, upstream_unavailable}
use moaray.Config.Runtime.{BreakerConfig, RetryConfig}
use moaray.Limit.{Governor}
use moaray.Governed.{success, call, retry_loop, stop, backoff, max_retries}
use moaray.Governed.Retry.{IsRetry, call-IsRetry}

-- A limiter that is its quota and always lets through.
abbrev pub governor : Governor
governor = record {
  Limiter = ℕ × ℕ;
  direct = λ rps burst. (rps, burst);
  check = λ l now. (l, true);
}

abbrev pub retry : RetryConfig
retry = record { enabled = true; max_retries = 3; backoff_ms = 10 }

-- Two connection failures, then an answer.
abbrev pub flaky : ℕ → Result ℕ Error
flaky zero = err upstream_unavailable
flaky (suc zero) = err upstream_unavailable
flaky n = ok 7

retries_twice : call retry flaky ≡ record { pauses = 10 ∷ 20 ∷ []; action = success; result = ok 7 }
unfolding call retry_loop stop backoff max_retries is_retryable
retries_twice = refl

call-IsRetry_example : IsRetry flaky 0 (max_retries retry) (call retry flaky)
call-IsRetry_example = call-IsRetry retry flaky

abbrev pub cfg : BreakerConfig
cfg = record { failure_threshold = 3; open_ms = 1000; half_open_successes = 2 }
