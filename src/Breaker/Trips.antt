-- ===== src/Breaker/Trips.antt =====
-- crates/moaray/src/breaker.rs: when the breaker trips, how long it stays open, how it recovers.
use moaray.Base.{
  ℕ, suc, ◌+◌, ◌≤◌, ◌<◌, max, ◌≡◌, refl, Option, none, some, arith, List, [], ◌∷◌, ◌++◌, length,
  All,
}
use moaray.Core.Error.{circuit_open}
use moaray.Base.Result.{err}
use moaray.Breaker.{
  closed, open_, normal, Breaker, check_at, on_success_at, on_failure_at, release_probe,
  nanos_of_millis,
}
use moaray.Breaker.Invariant.{IsValid, Op, check, success, failure, release, step}

-- Failures reported at the listed instants, with no success between them.
unfoldable pub fail_all : Breaker → List ℕ → Breaker
fail_all b [] = b
fail_all b (now ∷ ts) = fail_all (on_failure_at b now normal) ts

on_failure_at-counts :
    (b : Breaker) (now : ℕ)
    → IsValid b
    → b.state ≡ closed
    → suc b.consecutive_failures < max b.cfg.failure_threshold 1
    → on_failure_at b now normal ≡ record b { consecutive_failures = suc b.consecutive_failures }
unfolding on_failure_at
on_failure_at-counts b now v c h = ground (arith, v.range.failures)

fail_all-counts :
    (b : Breaker) (ts : List ℕ)
    → IsValid b
    → b.state ≡ closed
    → b.consecutive_failures + length ts < max b.cfg.failure_threshold 1
    → fail_all b ts ≡ record b { consecutive_failures = b.consecutive_failures + length ts }
unfolding fail_all
fail_all-counts b [] v c h = ground arith
fail_all-counts b (now ∷ ts) v c h =
    let b' = record b { consecutive_failures = suc b.consecutive_failures } in
    rw (on_failure_at-counts b now v c (omega arith))
      (ground (arith, fail_all-counts b' ts (ground arith) c (omega arith)))

on_failure_at-trips :
    (b : Breaker) (now : ℕ)
    → IsValid b
    → b.state ≡ closed
    → suc b.consecutive_failures ≡ max b.cfg.failure_threshold 1
    → on_failure_at b now normal ≡ record b {
      consecutive_failures = suc b.consecutive_failures;
      state = open_;
      opened_at = some now;
    }
unfolding on_failure_at
on_failure_at-trips b now v c h = ground (arith, v.range.failures)

fail_all-append :
    (b : Breaker) (ts us : List ℕ) → fail_all b (ts ++ us) ≡ fail_all (fail_all b ts) us
unfolding fail_all
fail_all-append b [] us = refl
fail_all-append b (now ∷ ts) us = fail_all-append (on_failure_at b now normal) ts us

-- A closed breaker stays closed, counting, through every run of failures that keeps the streak
-- below the threshold (at least 1), and the failure that reaches it opens the breaker at its
-- own instant, with the other fields as they were.
pub fail_all-trips :
    (b : Breaker) (ts : List ℕ) (now : ℕ)
    → IsValid b
    → b.state ≡ closed
    → b.consecutive_failures + length ts + 1 ≡ max b.cfg.failure_threshold 1
    → (fail_all b ts ≡ record b { consecutive_failures = b.consecutive_failures + length ts })
      × (fail_all b (ts ++ now ∷ []) ≡ record b {
        consecutive_failures = max b.cfg.failure_threshold 1;
        state = open_;
        opened_at = some now;
      })
unfolding fail_all
fail_all-trips b ts now v c h =
    let counted = fail_all-counts b ts v c (omega arith) in
    let b' = record b { consecutive_failures = b.consecutive_failures + length ts } in
    (
      counted,
      rw (fail_all-append b ts (now ∷ []), counted)
          (ground (arith, on_failure_at-trips b' now (ground arith) c (omega arith))),
    )

abbrev pub Within : ℕ → ℕ → Op → Type 0
Within lo hi (check now) = (lo ≤ now) × (now < hi)
Within lo hi (success now a) = (lo ≤ now) × (now < hi)
Within lo hi (failure now a) = (lo ≤ now) × (now < hi)
Within lo hi release = Unit

pub run : Breaker → List Op → Breaker
run b [] = b
run b (o ∷ os) = run (step b o) os

abbrev OpenedAfter : ℕ → Option ℕ → Type 0
OpenedAfter t none = ⊥
OpenedAfter t (some s) = t ≤ s

record OpenSince (t d : ℕ) (b : Breaker) : Type 0 where
  is_open : b.state ≡ open_
  since : OpenedAfter t b.opened_at
  cooldown : nanos_of_millis b.cfg.open_ms ≡ d

step-OpenSince :
    (t d : ℕ) (b : Breaker) (o : Op)
    → OpenSince t d b
    → Within t (t + d) o
    → OpenSince t d (step b o)
unfolding step check_at on_success_at on_failure_at release_probe
step-OpenSince t d b (check now) v w = ground arith
step-OpenSince t d b (success now a) v w = ground arith
step-OpenSince t d b (failure now a) v w = ground arith
step-OpenSince t d b release v w = ground arith

run-OpenSince :
    (t d : ℕ) (b : Breaker) (os : List Op)
    → OpenSince t d b
    → All (Within t (t + d)) os
    → OpenSince t d (run b os)
unfolding run
run-OpenSince t d b [] v w = v
run-OpenSince t d b (o ∷ os) v w =
    run-OpenSince t d (step b o) os (step-OpenSince t d b o v w.0) w.1

check_at-refuses :
    (t d : ℕ) (b : Breaker) (now : ℕ)
    → OpenSince t d b
    → t ≤ now
    → now < t + d
    → check_at b now ≡ (b, err circuit_open)
unfolding check_at
check_at-refuses t d b now v l h = ground arith

-- A breaker opened at `t` refuses every call until `open_ms` later, whatever calls, outcomes and
-- releases arrive in between: for any sequence of those at instants in the window it is still
-- open, and a call inside the window gets `CircuitOpen` and changes nothing.
pub run-fails_fast :
    (b : Breaker) (os : List Op) (t now : ℕ)
    → b.state ≡ open_
    → b.opened_at ≡ some t
    → All (Within t (t + nanos_of_millis b.cfg.open_ms)) os
    → t ≤ now
    → now < t + nanos_of_millis b.cfg.open_ms
    → ((run b os).state ≡ open_) × (check_at (run b os) now ≡ (run b os, err circuit_open))
run-fails_fast b os t now o at w l h =
    let d = nanos_of_millis b.cfg.open_ms in
    let still =
      run-OpenSince t d b os (record { is_open = o; since = ground arith; cooldown = refl }) w in
    (still.is_open, check_at-refuses t d (run b os) now still l h)
