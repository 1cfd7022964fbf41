-- ===== src/Breaker/Invariant.antt =====
-- crates/moaray/src/breaker.rs: what holds of the breaker between two calls.
use moaray.Base.{ℕ, ◌^◌, ◌<◌, max, ◌≡◌, true, is_some, arith}
use moaray.Config.Runtime.{BreakerConfig}
use moaray.Breaker.{
  closed, open_, half_open, Admission, Breaker, new, check_at, on_success_at, on_failure_at,
  release_probe,
}

-- The thresholds are `u32` values, as the type of the fields has them.
pub record InRange (cfg : BreakerConfig) : Type 0 where
  pub failures : cfg.failure_threshold < 2 ^ 32
  pub successes : cfg.half_open_successes < 2 ^ 32

pub record IsValid (b : Breaker) : Type 0 where
  pub range : InRange b.cfg
  pub below_trip : b.state ≡ closed → b.consecutive_failures < max b.cfg.failure_threshold 1
  pub below_close : b.state ≡ half_open → b.consecutive_successes < max b.cfg.half_open_successes 1
  pub probe_half_open : b.probe_in_flight ≡ true → b.state ≡ half_open
  pub dated : b.state ≡ open_ → is_some b.opened_at ≡ true

pub new-IsValid : (cfg : BreakerConfig) → InRange cfg → IsValid (new cfg)
unfolding new
new-IsValid cfg r = ground arith

pub data Op : Type 0 where
  check : ℕ → Op
  success failure : ℕ → Admission → Op
  release : Op

unfoldable pub step : Breaker → Op → Breaker
step b (check now) = (check_at b now).0
step b (success now a) = on_success_at b now a
step b (failure now a) = on_failure_at b now a
step b release = release_probe b

-- Every method, whatever token it is given, keeps the breaker well formed.
pub step-IsValid : (b : Breaker) (o : Op) → IsValid b → IsValid (step b o)
unfolding step check_at on_success_at on_failure_at release_probe
step-IsValid b (check now) v = ground arith
step-IsValid b (success now a) v = ground arith
step-IsValid b (failure now a) v = ground arith
step-IsValid b release v = ground arith
