-- ===== src/Limit.antt =====
-- crates/moaray/src/limit.rs: token buckets and concurrency caps. The bucket behind a limiter
-- (`governor`) is a parameter; a semaphore (`tokio`) counts its free permits.
use moaray.Base.{ℕ, max, Bool, Option, none, some, if◌then◌else◌, ltb}
use moaray.Base.Result.{Result, ok, err}
use moaray.Core.Error.{Error, rate_limited}
use moaray.Config.Runtime.{RateLimit}

-- `governor::RateLimiter::direct` over a quota per second with a burst, and its `check` at an instant.
pub record Governor : Type 1 where
  pub Limiter : Type 0
  pub direct : ℕ → ℕ → Limiter
  pub check : Limiter → ℕ → Limiter × Bool

module _ (G : Governor) where
  pub record TokenBucket : Type 0 where
    pub inner : G.Limiter
    pub limit : RateLimit

  unfoldable pub new_bucket : RateLimit → TokenBucket
  new_bucket limit =
      let rps = max limit.rps 1 in
      let burst = max (max limit.burst limit.rps) 1 in
      record { inner = G.direct rps burst; limit = limit }

  unfoldable pub check_bucket : TokenBucket → ℕ → TokenBucket × Result (Unit {0}) Error
  check_bucket b now =
      let (inner, allowed) = G.check b.inner now in
      (record b { inner = inner }, if allowed then ok tt else err rate_limited)

-- The free permits of the semaphore, if there is a cap.
pub record Concurrency : Type 0 where
  pub sem : Option ℕ

unfoldable pub new_concurrency : Option ℕ → Concurrency
new_concurrency none = record { sem = none }
new_concurrency (some n) = if ltb 0 n then record { sem = some n } else record { sem = none }
