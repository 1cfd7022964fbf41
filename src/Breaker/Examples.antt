-- ===== src/Breaker/Examples.antt =====
-- crates/moaray/src/breaker.rs on the inputs of its unit tests.
use moaray.Base.{◌≤◌, ◌≡◌, refl, true, false, some, List, [], ◌∷◌, arith}
use moaray.Base.Result.{ok, err}
use moaray.Config.Runtime.{BreakerConfig}
use moaray.Core.Error.{circuit_open}
use moaray.Breaker.{open_, half_open, normal, probe, Breaker, new, check_at, on_failure_at}
use moaray.Breaker.Invariant.{
  InRange, IsValid, Op, check, success, failure, release, step, new-IsValid, step-IsValid,
}
use moaray.Breaker.Trips.{fail_all, fail_all-trips, run, run-fails_fast}
use moaray.Breaker.Recovery.{succeed_all, succeed_all-recovers}
use moaray.Breaker.Probes.{System, start, Reach, here, next, admit_normal, single_probe}

abbrev cfg : BreakerConfig
cfg = record { failure_threshold = 3; open_ms = 1000; half_open_successes = 2 }

cfg-InRange : InRange cfg
cfg-InRange = record { failures = omega arith; successes = omega arith }

abbrev tripped : Breaker
tripped = record {
  cfg = cfg;
  state = open_;
  consecutive_failures = 3;
  consecutive_successes = 0;
  opened_at = some 7;
  probe_in_flight = false;
}

tripped-IsValid : IsValid tripped
tripped-IsValid = ground (arith, cfg-InRange)

abbrev probing : Breaker
probing = record tripped { state = half_open; probe_in_flight = true }

step-IsValid_example : IsValid (step (new cfg) (failure 5 normal))
step-IsValid_example = step-IsValid (new cfg) (failure 5 normal) (new-IsValid cfg cfg-InRange)

opens_after_threshold_failures : fail_all (new cfg) (5 ∷ 6 ∷ 7 ∷ []) ≡ tripped
unfolding fail_all new on_failure_at
opens_after_threshold_failures = refl

fail_all-trips_example :
    (fail_all (new cfg) (5 ∷ 6 ∷ []) ≡ record (new cfg) { consecutive_failures = 2 })
    × (fail_all (new cfg) (5 ∷ 6 ∷ 7 ∷ []) ≡ tripped)
unfolding new
fail_all-trips_example =
    fail_all-trips (new cfg) (5 ∷ 6 ∷ []) 7 (new-IsValid cfg cfg-InRange) refl (omega arith)

abbrev late : List Op
late = failure 900 normal ∷ check 1000 ∷ release ∷ success 2000 normal ∷ []

run-fails_fast_example :
    ((run tripped late).state ≡ open_)
    × (check_at (run tripped late) 3000 ≡ (run tripped late, err circuit_open))
run-fails_fast_example =
    run-fails_fast tripped late 7 3000 refl refl (omega arith) (omega arith) (omega arith)

succeed_all-recovers_example :
    ((check_at tripped 2000000000).1 ≡ ok probe)
    × (succeed_all tripped (2000000000 ∷ 2000000001 ∷ []) ≡ new cfg)
unfolding new
succeed_all-recovers_example =
    succeed_all-recovers tripped 7 2000000000 (2000000001 ∷ []) tripped-IsValid refl
      (refl, omega arith) (omega arith)

abbrev one_call : System
one_call = record { breaker = new cfg; normals = 1; probes = 0 }

one_call-Reach : Reach (start cfg) one_call
unfolding new check_at
one_call-Reach = next here (admit_normal 5 refl)

single_probe_example :
    (one_call.probes ≤ 1)
    × (1 ≤ one_call.probes
        → (one_call.breaker.state ≡ half_open) × (one_call.breaker.probe_in_flight ≡ true))
single_probe_example = single_probe cfg one_call one_call-Reach
