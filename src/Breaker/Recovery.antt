-- ===== src/Breaker/Recovery.antt =====
-- crates/moaray/src/breaker.rs: how an open breaker recovers through half-open probes.
use moaray.Base.{
  ℕ, suc, ◌+◌, ◌≤◌, ◌<◌, max, ◌≡◌, refl, false, none, some, arith, List, [], ◌∷◌, length,
}
use moaray.Core.Error.{Error}
use moaray.Base.Result.{Result, ok, err}
use moaray.Breaker.{
  closed, open_, half_open, Admission, probe, Breaker, check_at, on_success_at, nanos_of_millis,
}
use moaray.Breaker.Invariant.{IsValid}

-- A call that succeeds: the gate, then the outcome under the token that the gate gave.
succeed_with : Breaker → Result Admission Error → ℕ → Breaker
succeed_with b (ok a) now = on_success_at b now a
succeed_with b (err e) now = b

pub succeed : Breaker → ℕ → Breaker
unfolding succeed_with
succeed b now = let (b', r) = check_at b now in succeed_with b' r now

pub succeed_all : Breaker → List ℕ → Breaker
succeed_all b [] = b
succeed_all b (now ∷ ts) = succeed_all (succeed b now) ts

abbrev reset : Breaker → Breaker
reset b = record b {
  state = closed;
  consecutive_failures = 0;
  consecutive_successes = 0;
  opened_at = none;
  probe_in_flight = false;
}

succeed-advances :
    (b : Breaker) (now : ℕ)
    → IsValid b
    → b.state ≡ half_open
    → b.probe_in_flight ≡ false
    → suc b.consecutive_successes < max b.cfg.half_open_successes 1
    → succeed b now ≡ record b { consecutive_successes = suc b.consecutive_successes }
unfolding succeed check_at on_success_at
succeed-advances b now v c f h = ground (arith, v.range.successes)

succeed-closes :
    (b : Breaker) (now : ℕ)
    → IsValid b
    → b.state ≡ half_open
    → b.probe_in_flight ≡ false
    → suc b.consecutive_successes ≡ max b.cfg.half_open_successes 1
    → succeed b now ≡ reset b
unfolding succeed check_at on_success_at
succeed-closes b now v c f h = ground (arith, v.range.successes)

succeed_all-resets :
    (b : Breaker) (now : ℕ) (ts : List ℕ)
    → IsValid b
    → b.state ≡ half_open
    → b.probe_in_flight ≡ false
    → b.consecutive_successes + length ts + 1 ≡ max b.cfg.half_open_successes 1
    → succeed_all b (now ∷ ts) ≡ reset b
unfolding succeed_all
succeed_all-resets b now [] v c f h = succeed-closes b now v c f (omega arith)
succeed_all-resets b now (next ∷ ts) v c f h =
    let b' = record b { consecutive_successes = suc b.consecutive_successes } in
    rw (succeed-advances b now v c f (omega arith))
      (succeed_all-resets b' next ts (ground arith) c f (omega arith))

abbrev pub OpenedFor : Breaker → ℕ → ℕ → Type 0
OpenedFor b t now = (b.opened_at ≡ some t) × (t + nanos_of_millis b.cfg.open_ms ≤ now)

abbrev probing : Breaker → Breaker
probing b = record b { state = half_open; consecutive_successes = 0; probe_in_flight = false }

-- The first call after the cooldown acts as the half-open breaker's next probe does.
succeed-first :
    (b : Breaker) (t now : ℕ)
    → b.state ≡ open_
    → OpenedFor b t now
    → succeed b now ≡ succeed (probing b) now
unfolding succeed check_at
succeed-first b t now o e = ground arith

-- Once the cooldown is over an open breaker admits a probe, and the configured number of
-- successful probes in a row (at least 1) closes it with its counters and its date cleared.
pub succeed_all-recovers :
    (b : Breaker) (t first : ℕ) (ts : List ℕ)
    → IsValid b
    → b.state ≡ open_
    → OpenedFor b t first
    → length ts + 1 ≡ max b.cfg.half_open_successes 1
    → ((check_at b first).1 ≡ ok probe)
      × (succeed_all b (first ∷ ts) ≡ record b {
        state = closed;
        consecutive_failures = 0;
        consecutive_successes = 0;
        opened_at = none;
        probe_in_flight = false;
      })
unfolding check_at succeed_all
succeed_all-recovers b t first ts v o e h = (
  ground arith,
  rw (succeed-first b t first o e)
      (succeed_all-resets (probing b) first ts (ground arith) refl refl (omega arith)),
)
