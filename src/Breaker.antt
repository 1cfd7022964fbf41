-- ===== src/Breaker.antt =====
-- crates/moaray/src/breaker.rs: the per-upstream circuit breaker. An `Instant` is a number of
-- nanoseconds on the monotonic clock. A method takes the record under the mutex and returns it.
pub mod Invariant
pub mod Trips
pub mod Recovery
pub mod Probes
mod Examples
use moaray.Base.{
  ℕ, ◌+◌, ◌-◌, ◌*◌, ◌%◌, ◌^◌, Bool, true, false, Option, none, some, leb, if◌then◌else◌,
}
use moaray.Core.Error.{Error, circuit_open}
use moaray.Base.Result.{Result, ok, err}
use moaray.Config.Runtime.{BreakerConfig}

pub data BreakerState : Type 0 where
  closed open_ half_open : BreakerState

pub data Admission : Type 0 where
  normal probe : Admission

pub record Breaker : Type 0 where
  pub cfg : BreakerConfig
  pub state : BreakerState
  pub consecutive_failures : ℕ
  pub consecutive_successes : ℕ
  pub opened_at : Option ℕ
  pub probe_in_flight : Bool

-- A release build's `u32` addition.
abbrev pub u32 : ℕ → ℕ
u32 n = n % 2 ^ 32

abbrev pub nanos_of_millis : ℕ → ℕ
nanos_of_millis ms = ms * 1000000

unfoldable pub new : BreakerConfig → Breaker
new cfg = record {
  cfg = cfg;
  state = closed;
  consecutive_failures = 0;
  consecutive_successes = 0;
  opened_at = none;
  probe_in_flight = false;
}

-- `duration_since` is zero for an earlier instant, as truncated subtraction is.
abbrev pub cooled_down : Breaker → ℕ → Bool
cooled_down b now = elim b.opened_at [
  | none ↦ false
  | some t ↦ leb (nanos_of_millis b.cfg.open_ms) (now - t)
]

check_from : BreakerState → Breaker → ℕ → Breaker × Result Admission Error
check_from closed b now = (b, ok normal)
check_from half_open b now =
    if b.probe_in_flight
    then (b, err circuit_open)
    else (record b { probe_in_flight = true }, ok probe)
check_from open_ b now =
    if cooled_down b now
    then (
      record b { state = half_open; consecutive_successes = 0; probe_in_flight = true },
      ok probe,
    )
    else (b, err circuit_open)

unfoldable pub check_at : Breaker → ℕ → Breaker × Result Admission Error
unfolding check_from
check_at b now = check_from b.state b now

probe_success : Breaker → Breaker
probe_success b =
    let n = u32 (b.consecutive_successes + 1) in
    if leb b.cfg.half_open_successes n
    then record b {
      state = closed;
      consecutive_failures = 0;
      consecutive_successes = 0;
      opened_at = none;
      probe_in_flight = false;
    }
    else record b { consecutive_successes = n; probe_in_flight = false }

on_success_from : BreakerState → Admission → Breaker → Breaker
unfolding probe_success
on_success_from closed a b = record b { consecutive_failures = 0 }
on_success_from half_open probe b = probe_success b
on_success_from half_open normal b = b
on_success_from open_ a b = b

unfoldable pub on_success_at : Breaker → ℕ → Admission → Breaker
unfolding on_success_from
on_success_at b now a = on_success_from b.state a b

on_failure_from : BreakerState → Admission → Breaker → ℕ → Breaker
on_failure_from closed a b now =
    let n = u32 (b.consecutive_failures + 1) in
    if leb b.cfg.failure_threshold n
    then record b { consecutive_failures = n; state = open_; opened_at = some now }
    else record b { consecutive_failures = n }
on_failure_from half_open probe b now = record b {
  state = open_;
  opened_at = some now;
  consecutive_successes = 0;
  probe_in_flight = false;
}
on_failure_from half_open normal b now = b
on_failure_from open_ a b now = record b { opened_at = some now }

unfoldable pub on_failure_at : Breaker → ℕ → Admission → Breaker
unfolding on_failure_from
on_failure_at b now a = on_failure_from b.state a b now

abbrev is_half_open : BreakerState → Bool
is_half_open half_open = true
is_half_open _ = false

unfoldable pub release_probe : Breaker → Breaker
release_probe b = if is_half_open b.state then record b { probe_in_flight = false } else b
