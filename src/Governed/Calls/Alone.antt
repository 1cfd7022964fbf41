-- ===== src/Governed/Calls/Alone.antt =====
-- crates/moaray/src/governed.rs: one call, event by event, against the loop as a whole.
use moaray.Base.{
  ℕ, zero, suc, ◌+◌, ◌<◌, ◌≡◌, refl, ap, ◌∙◌, lt→ltb, true, false, Bool-cases, inl, inr, ◌&&◌, some,
  length, List, [], ◌∷◌, arith, ltb,
}
use moaray.Base.Result.{Result, ok, err, Result-cases}
use moaray.Core.Error.{Error, is_retryable}
use moaray.Config.Runtime.{RetryConfig}
use moaray.Breaker.{Admission}
use moaray.Limit.{Governor}
use moaray.State.{UpstreamState}
use moaray.Governed.{Finished, finish, max_retries, stop, backoff, retry_loop, call}
use moaray.Governed.Calls.{
  whole, Stage, calling, pausing, ended, Event, answers, wakes, on_answer, proceed,
}

module _ {A : Type 0} (G : Governor) where
  -- A call meets events one after the other.
  pub drive :
      RetryConfig → ℕ → List (Event A) → UpstreamState G × Stage A → UpstreamState G × Stage A
  drive retry now [] x = x
  drive retry now (e ∷ es) (s, p) = drive retry now es (proceed G retry whole now p e s)

  -- The answers of the upstream from the attempt `n` on, each but the first after a pause.
  pub answers_from : (ℕ → Result A Error) → ℕ → ℕ → List (Event A)
  answers_from attempts n zero = answers (attempts n) ∷ []
  answers_from attempts n (suc pauses) =
      answers (attempts n) ∷ wakes ∷ answers_from attempts (suc n) pauses

  -- How a call that was admitted as `a` leaves the state of the upstream, and what it returns.
  abbrev pub finished : Admission → ℕ → UpstreamState G → Finished A → UpstreamState G × Stage A
  finished a now s f = (finish G a (some f.action) now s, ended (some f.result))

  -- The answer that ends a call.
  final_answer :
      (retry : RetryConfig) (now : ℕ) (a : Admission) (n : ℕ) (r : Result A Error)
      (s : UpstreamState G)
      → ((e : Error) → r ≡ err e → (ltb n (max_retries retry) && is_retryable e) ≡ false)
      → on_answer G retry whole now a n r s ≡ finished a now s (stop r)
  unfolding on_answer stop
  final_answer retry now a n (ok x) s h = refl
  final_answer retry now a n (err e) s h = rw (h e refl) refl

  stop_pauses : (r : Result A Error) → (stop r).pauses ≡ []
  unfolding stop
  stop_pauses (ok x) = refl
  stop_pauses (err e) = refl

  drive-stop :
      (retry : RetryConfig) (attempts : ℕ → Result A Error) (a : Admission) (now n : ℕ)
      (s : UpstreamState G)
      → ((e : Error) → attempts n ≡ err e → (ltb n (max_retries retry) && is_retryable e) ≡ false)
      → let f = stop (attempts n) in
        drive retry now (answers_from attempts n (length f.pauses)) (s, calling a n)
        ≡ finished a now s f
  unfolding drive answers_from proceed
  drive-stop retry attempts a now n s h =
      rw (stop_pauses (attempts n)) (final_answer retry now a n (attempts n) s h)

  loop_stops :
      (retry : RetryConfig) (attempts : ℕ → Result A Error) (n left : ℕ) (r : Result A Error)
      → attempts n ≡ r
      → ((e : Error) → r ≡ err e → is_retryable e ≡ false)
      → retry_loop retry attempts n (suc left) ≡ stop (attempts n)
  unfolding retry_loop
  loop_stops retry attempts n left (ok x) h f = rw (h, retry_loop) refl
  loop_stops retry attempts n left (err e) h f = rw (h, f e refl, retry_loop) refl

  loop_retries :
      (retry : RetryConfig) (attempts : ℕ → Result A Error) (n left : ℕ) (e : Error)
      → attempts n ≡ err e
      → is_retryable e ≡ true
      → let rest = retry_loop retry attempts (suc n) left in
        retry_loop retry attempts n (suc left)
        ≡ record rest { pauses = backoff retry (suc n) ∷ rest.pauses }
  unfolding retry_loop
  loop_retries retry attempts n left e h again = rw (h, again, retry_loop) refl

  -- An answer that is retried, and the pause after it.
  retried :
      (retry : RetryConfig) (now : ℕ) (a : Admission) (n : ℕ) (e : Error) (s : UpstreamState G)
      → n < max_retries retry
      → is_retryable e ≡ true
      → on_answer {A = A} G retry whole now a n (err e) s ≡ (s, pausing a (suc n))
  unfolding on_answer
  retried retry now a n e s more again = rw (lt→ltb n (max_retries retry) more, again) refl

  drive_again :
      (retry : RetryConfig) (attempts : ℕ → Result A Error) (a : Admission) (now n m : ℕ)
      (s : UpstreamState G) (e : Error)
      → attempts n ≡ err e
      → n < max_retries retry
      → is_retryable e ≡ true
      → drive retry now (answers_from attempts n (suc m)) (s, calling a n)
        ≡ drive retry now (answers_from attempts (suc n) m) (s, calling a (suc n))
  unfolding drive answers_from proceed
  drive_again retry attempts a now n m s e h more again =
      ap
        (λ x.
          drive retry now (answers_from attempts (suc n) m)
            (proceed G retry whole now x.1 wakes x.0))
        (ap (λ r. on_answer G retry whole now a n r s) h ∙ retried retry now a n e s more again)

  drive_loop :
      (retry : RetryConfig) (attempts : ℕ → Result A Error) (a : Admission) (now n left : ℕ)
      (s : UpstreamState G)
      → n + left ≡ max_retries retry
      → let f = retry_loop retry attempts n left in
        drive retry now (answers_from attempts n (length f.pauses)) (s, calling a n)
        ≡ finished a now s f
  drive_loop retry attempts a now n zero s e =
      unfold retry_loop in drive-stop retry attempts a now n s (λ c h. ground (arith, e))
  drive_loop retry attempts a now n (suc left) s e = elim (Result-cases (attempts n)) [
    | inl (x, h) ↦
        rw (loop_stops retry attempts n left (ok x) h (λ c i. cc i))
          (drive-stop retry attempts a now n s (λ c i. cc (i, h)))
    | inr (c, h) ↦ elim (Bool-cases (is_retryable c)) [
      | inl again ↦ rw (loop_retries retry attempts n left c h again) (
          drive_again retry attempts a now n _ s c h (omega (arith, e)) again
          ∙ drive_loop retry attempts a now (suc n) left s (omega (arith, e)))
      | inr final ↦
          rw (loop_stops retry attempts n left (err c) h (λ d i. ground (arith, i, final)))
            (drive-stop retry attempts a now n s (λ d i. ground (arith, i, h, final)))
    ]
  ]

  -- A call by itself, once it has its permit, is the loop: answered as the attempts say and woken after
  -- each pause, it sends as many further attempts as the loop makes pauses, tells the breaker what the
  -- loop tells it, gives back its permit, and returns the result of the loop.
  pub drive-call :
      (retry : RetryConfig) (attempts : ℕ → Result A Error) (a : Admission) (now : ℕ)
      (s : UpstreamState G)
      → let f = call retry attempts in
        drive retry now (answers_from attempts 0 (length f.pauses)) (s, calling a 0)
        ≡ (finish G a (some f.action) now s, ended (some f.result))
  unfolding call
  drive-call retry attempts a now s =
      drive_loop retry attempts a now 0 (max_retries retry) s (omega arith)
