-- ===== src/Governed.antt =====
-- crates/moaray/src/governed.rs: the safety wrapper around a provider. One function for what happens
-- between two waits of a call; Calls has many calls interleave there. A dropped future is an input.
pub mod Calls
pub mod Probe
pub mod Retry
mod Examples
use moaray.Base.{
  ℕ, zero, suc, ◌+◌, ◌-◌, ◌*◌, ◌%◌, ◌^◌, min, Bool, true, false, Option, none, some, List, [], ◌∷◌,
  if◌then◌else◌,
}
use moaray.Base.Result.{Result, ok, err}
use moaray.Core.Error.{Error, internal, is_retryable, counts_against_breaker}
use moaray.Config.Runtime.{RetryConfig}
use moaray.Breaker.{Admission, normal, probe, check_at, on_success_at, on_failure_at, release_probe}
use moaray.Limit.{Governor, Concurrency}
use moaray.State.{UpstreamState, check_limit}

-- How the wait for a permit ends: with one, with a closed semaphore, or with the call dropped.
pub data Wait : Type 0 where
  granted closed dropped : Wait

-- Where an admission stands.
pub data Gate : Type 0 where
  entered : Admission → Gate
  refused : Error → Gate
  cancelled : Gate

pub data BreakerAction : Type 0 where
  success failure : BreakerAction

module _ (G : Governor) where
  -- The drop of a `ProbeReleaseGuard` that is still armed, which only a probe's is.
  unfoldable pub drop_probe_guard : Admission → UpstreamState G → UpstreamState G
  drop_probe_guard normal s = s
  drop_probe_guard probe s = record s { breaker = release_probe s.breaker }

  -- `admit` up to the wait for a permit.
  unfoldable pub limited :
      Admission → UpstreamState G × Result (Unit {0}) Error → UpstreamState G × Gate
  limited admission (s, ok tt) = (s, entered admission)
  limited admission (s, err e) = (drop_probe_guard admission s, refused e)

  unfoldable pub admit : UpstreamState G → ℕ → UpstreamState G × Gate
  admit s now =
      let (breaker, answer) = check_at s.breaker now in
      elim answer [
        | err e ↦ (record s { breaker = breaker }, refused e)
        | ok admission ↦ limited admission (check_limit G (record s { breaker = breaker }) now)
      ]

  pub take : Concurrency → Concurrency
  take c = elim c.sem [ none ↦ c | some n ↦ record { sem = some (n - 1) } ]

  unfoldable pub give_back : Concurrency → Concurrency
  give_back c = elim c.sem [ none ↦ c | some n ↦ record { sem = some (n + 1) } ]

  -- The rest of `admit`, from the end of the wait on.
  unfoldable pub acquire : Admission → Wait → UpstreamState G → UpstreamState G × Gate
  unfolding take
  acquire admission granted s = (record s { concurrency = take s.concurrency }, entered admission)
  acquire admission closed s = (drop_probe_guard admission s, refused internal)
  acquire admission dropped s = (drop_probe_guard admission s, cancelled)

  -- The drop of a `BreakerGuard`, and of the permit after it.
  unfoldable pub drop_breaker_guard :
      Admission → Option BreakerAction → ℕ → UpstreamState G → UpstreamState G
  drop_breaker_guard admission (some success) now s = record s {
    breaker = on_success_at s.breaker now admission;
  }
  drop_breaker_guard admission (some failure) now s = record s {
    breaker = on_failure_at s.breaker now admission;
  }
  drop_breaker_guard admission none now s = record s {
    breaker = on_failure_at s.breaker now admission;
  }

  unfoldable pub finish : Admission → Option BreakerAction → ℕ → UpstreamState G → UpstreamState G
  unfolding give_back
  finish admission action now s =
      let after = drop_breaker_guard admission action now s in
      record after { concurrency = give_back after.concurrency }

-- `BreakerGuard::record`.
unfoldable pub record_error : Error → BreakerAction
record_error e = if counts_against_breaker e then failure else success

unfoldable pub max_retries : RetryConfig → ℕ
max_retries retry = if retry.enabled then retry.max_retries else 0

-- `backoff_ms.saturating_mul(1u64 << (attempt - 1))`, the shift as a release build masks it.
unfoldable pub backoff : RetryConfig → ℕ → ℕ
backoff retry attempt = min (retry.backoff_ms * 2 ^ ((attempt - 1) % 64)) (2 ^ 64 - 1)

-- What the loop of `passthrough` and `chat` comes to: the pauses before its further attempts, what it
-- tells the breaker, and what it returns.
pub record Finished (A : Type 0) : Type 0 where
  pub pauses : List ℕ
  pub action : BreakerAction
  pub result : Result A Error

module _ {A : Type 0} where
  -- The end of the call: the answer is told to the breaker and returned. A stream, which is tried
  -- once, is its handshake.
  unfoldable pub stop : Result A Error → Finished A
  stop (ok a) = record { pauses = []; action = success; result = ok a }
  stop (err e) = record { pauses = []; action = record_error e; result = err e }

  -- `attempts i` is what the upstream answers at the attempt `i`; `left` further ones are allowed.
  unfoldable pub retry_loop : RetryConfig → (ℕ → Result A Error) → ℕ → ℕ → Finished A
  retry_loop retry attempts attempt zero = stop (attempts attempt)
  retry_loop retry attempts attempt (suc left) =
      let rest = retry_loop retry attempts (suc attempt) left in
      elim (attempts attempt) [
        | ok a ↦ stop (ok a)
        | err e ↦
            if is_retryable e
            then record rest { pauses = backoff retry (suc attempt) ∷ rest.pauses }
            else stop (err e)
      ]

  unfoldable pub call : RetryConfig → (ℕ → Result A Error) → Finished A
  call retry attempts = retry_loop retry attempts 0 (max_retries retry)
