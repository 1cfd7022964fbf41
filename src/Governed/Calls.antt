-- ===== src/Governed/Calls.antt =====
-- crates/moaray/src/governed.rs: `passthrough`, `chat` and `passthrough_stream` as calls that share the
-- state of one upstream, and interleave at every `await`.
mod Effects
pub mod Balanced
pub mod Alone
pub mod Settled
mod Examples
use moaray.Base.{
  ℕ, zero, suc, Bool, true, false, ◌&&◌, Option, none, some, List, [], ◌∷◌, ◌++◌, if◌then◌else◌,
  ltb, is_some,
}
use moaray.Base.Result.{Result, ok, err}
use moaray.Core.Error.{Error, is_retryable}
use moaray.Config.Runtime.{RetryConfig}
use moaray.Breaker.{Admission}
use moaray.Limit.{Governor, Concurrency}
use moaray.State.{UpstreamState}
use moaray.Governed.{
  Wait, granted, closed, dropped, Gate, entered, refused, cancelled, success, drop_breaker_guard,
  admit, acquire, give_back, finish, record_error, max_retries,
}

-- `whole` stands for `passthrough` and `chat`, `streamed` for `passthrough_stream`.
pub data Mode : Type 0 where
  whole streamed : Mode

-- Where a call stands. Both numbers are that of the attempt; a call that ended has returned a result,
-- unless it was dropped.
pub data Stage (A : Type 0) : Type 0 where
  waiting : Admission → Stage A
  calling : Admission → ℕ → Stage A
  pausing : Admission → ℕ → Stage A
  streaming : A → Stage A
  ended : Option (Result A Error) → Stage A

-- What a call awaits. The end of a stream is the drop of its body.
pub data Event (A : Type 0) : Type 0 where
  waits : Wait → Event A
  answers : Result A Error → Event A
  wakes drops : Event A

pub record Call (A : Type 0) : Type 0 where
  pub mode : Mode
  pub stage : Stage A

-- What happens to the calls of an upstream: one arrives, or something happens to one of them.
pub data Action (A : Type 0) : Type 0 where
  arrives : Mode → ℕ → Action A
  happens : ℕ → ℕ → Event A → Action A

module _ (G : Governor) where
  pub record System (A : Type 0) : Type 0 where
    pub upstream : UpstreamState G
    pub calls : List (Call A)

-- A semaphore grants a permit only when one is free.
abbrev pub may_grant : Concurrency → Bool
may_grant c = elim c.sem [ none ↦ true | some n ↦ ltb 0 n ]

module _ {A : Type 0} (G : Governor) where
  after_gate : UpstreamState G × Gate → (Admission → Stage A) → UpstreamState G × Stage A
  after_gate (s, entered a) go = (s, go a)
  after_gate (s, refused e) go = (s, ended (some (err e)))
  after_gate (s, cancelled) go = (s, ended none)

  pub after_wait : UpstreamState G × Gate → UpstreamState G × Stage A
  unfolding after_gate
  after_wait gate = after_gate gate (λ a. calling a 0)

  -- The permit goes with the body of a stream, if there is a cap.
  pub attach_permit : A → UpstreamState G → Stage A
  attach_permit a s = if is_some s.concurrency.sem then streaming a else ended (some (ok a))

  -- The upstream answers the attempt `n`.
  pub on_answer :
      RetryConfig
      → Mode
      → ℕ
      → Admission
      → ℕ
      → Result A Error
      → UpstreamState G
      → UpstreamState G × Stage A
  unfolding attach_permit
  on_answer retry whole now admission n (ok a) s =
      (finish G admission (some success) now s, ended (some (ok a)))
  on_answer retry streamed now admission n (ok a) s =
      (drop_breaker_guard G admission (some success) now s, attach_permit a s)
  on_answer retry whole now admission n (err e) s =
      if ltb n (max_retries retry) && is_retryable e
      then (s, pausing admission (suc n))
      else (finish G admission (some (record_error e)) now s, ended (some (err e)))
  on_answer retry streamed now admission n (err e) s =
      (finish G admission (some (record_error e)) now s, ended (some (err e)))

  -- One call meets one event; what it does not await leaves it alone.
  unfoldable pub proceed :
      RetryConfig → Mode → ℕ → Stage A → Event A → UpstreamState G → UpstreamState G × Stage A
  unfolding after_wait on_answer
  proceed retry mode now (waiting a) (waits granted) s =
      if may_grant s.concurrency then after_wait (acquire G a granted s) else (s, waiting a)
  proceed retry mode now (waiting a) (waits closed) s = after_wait (acquire G a closed s)
  proceed retry mode now (waiting a) (waits dropped) s = after_wait (acquire G a dropped s)
  proceed retry mode now (waiting a) drops s = after_wait (acquire G a dropped s)
  proceed retry mode now (calling a n) (answers r) s = on_answer retry mode now a n r s
  proceed retry mode now (calling a n) drops s = (finish G a none now s, ended none)
  proceed retry mode now (pausing a n) wakes s = (s, calling a n)
  proceed retry mode now (pausing a n) drops s = (finish G a none now s, ended none)
  proceed retry mode now (streaming a) drops s =
      (record s { concurrency = give_back G s.concurrency }, ended (some (ok a)))
  proceed retry mode now p e s = (s, p)

  -- The call at a place of the list meets an event.
  unfoldable pub deliver :
      RetryConfig
      → ℕ
      → ℕ
      → Event A
      → List (Call A)
      → UpstreamState G
      → UpstreamState G × List (Call A)
  deliver retry i now e [] s = (s, [])
  deliver retry zero now e (c ∷ cs) s =
      let (s', p) = proceed retry c.mode now c.stage e s in (s', record c { stage = p } ∷ cs)
  deliver retry (suc i) now e (c ∷ cs) s =
      let (s', cs') = deliver retry i now e cs s in (s', c ∷ cs')

  unfoldable pub arrived : UpstreamState G × Gate → UpstreamState G × Stage A
  unfolding after_gate
  arrived gate = after_gate gate waiting

  unfoldable pub step : RetryConfig → System G A → Action A → System G A
  step retry s (arrives mode now) =
      let (u, p) = arrived (admit G s.upstream now) in
      record { upstream = u; calls = s.calls ++ record { mode = mode; stage = p } ∷ [] }
  step retry s (happens i now e) =
      let (u, cs) = deliver retry i now e s.calls s.upstream in record { upstream = u; calls = cs }

  unfoldable pub run : RetryConfig → System G A → List (Action A) → System G A
  run retry s [] = s
  run retry s (a ∷ as_) = run retry (step retry s a) as_
