-- ===== src/Governed/Retry.antt =====
-- crates/moaray/src/governed.rs: the retry loop.
use moaray.Base.{
  ℕ, zero, suc, ◌+◌, ◌≤◌, ◌<◌, ◌≡◌, refl, ap, sym, ◌∙◌, ◌∷◌, ◌==◌, ==_iff, Bool-cases, ◌⊎◌, inl,
  inr, true, false, length, arith, ◌↔◌,
}
use moaray.Base.Result.{Result, ok, err, Result-cases}
use moaray.Core.Error.{Error, is_retryable, counts_against_breaker}
use moaray.Config.Runtime.{RetryConfig}
use moaray.Governed.{failure, Finished, record_error, max_retries, stop, backoff, retry_loop, call}

module _ {A : Type 0} where
  -- A run of the loop from the attempt `from` on, with `left` further ones allowed.
  pub record IsRetry (attempts : ℕ → Result A Error) (from left : ℕ) (f : Finished A) : Type 0 where
    pub bounded : length f.pauses ≤ left
    pub last : f.result ≡ attempts (length f.pauses + from)
    pub before :
        (i : ℕ)
        → from ≤ i
        → i < length f.pauses + from
        → (e : Error) × (attempts i ≡ err e) × (is_retryable e ≡ true)
    pub gave_up :
        (e : Error) → f.result ≡ err e → (length f.pauses ≡ left) ⊎ (is_retryable e ≡ false)
    pub reported :
        f.action ≡ failure ↔ ((e : Error) × (f.result ≡ err e) × (counts_against_breaker e ≡ true))

  stop-IsRetry :
      (attempts : ℕ → Result A Error) (from left : ℕ) (r : Result A Error)
      → attempts from ≡ r
      → ((e : Error) → r ≡ err e → (0 ≡ left) ⊎ (is_retryable e ≡ false))
      → IsRetry attempts from left (stop r)
  unfolding stop record_error
  stop-IsRetry attempts from left (ok a) h g = record {
    bounded = omega arith;
    last = sym h ∙ ap attempts (omega arith);
    before = λ i l u. absurd (omega (arith, l, u));
    gave_up = λ e x. cc x;
    reported = (λ x. cc x, λ (e, x, y). cc x);
  }
  stop-IsRetry attempts from left (err e) h g = record {
    bounded = omega arith;
    last = sym h ∙ ap attempts (omega arith);
    before = λ i l u. absurd (omega (arith, l, u));
    gave_up = g;
    reported = (λ x. (e, refl, ground (arith, x)), λ (c, x, y). ground (arith, x, y));
  }

  again-IsRetry :
      (attempts : ℕ → Result A Error) (from left n : ℕ) (f : Finished A) (e : Error)
      → attempts from ≡ err e
      → is_retryable e ≡ true
      → IsRetry attempts (suc from) left f
      → IsRetry attempts from (suc left) (record f { pauses = n ∷ f.pauses })
  again-IsRetry attempts from left n f e h t r = record {
    bounded = omega (arith, r.bounded);
    last = r.last ∙ ap attempts (omega arith);
    before = λ i l u. elim (Bool-cases (i == from)) [
      | inl here ↦ (e, ap attempts ((==_iff i from).0 here) ∙ h, t)
      | inr past ↦ r.before i (ground (arith, l, past)) (omega (arith, u))
    ];
    gave_up = λ c x. ground (arith, r.gave_up c x);
    reported = r.reported;
  }

  pub retry_loop-IsRetry :
      (retry : RetryConfig) (attempts : ℕ → Result A Error) (from left : ℕ)
      → IsRetry attempts from left (retry_loop retry attempts from left)
  unfolding retry_loop
  retry_loop-IsRetry retry attempts from zero =
      stop-IsRetry attempts from 0 (attempts from) refl (λ e h. inl refl)
  retry_loop-IsRetry retry attempts from (suc left) = elim (Result-cases (attempts from)) [
    | inl (a, h) ↦ rw (h, retry_loop) (stop-IsRetry attempts from (suc left) (ok a) h (λ e x. cc x))
    | inr (e, h) ↦ elim (Bool-cases (is_retryable e)) [
      | inl again ↦
          rw (h, again, retry_loop)
            (again-IsRetry attempts from left (backoff retry (suc from)) _ e h again
              (retry_loop-IsRetry retry attempts (suc from) left))
      | inr final ↦
          rw (h, final, retry_loop)
            (stop-IsRetry attempts from (suc left) (err e) h
              (λ c x. inr (ground (arith, x, final))))
    ]
  ]

  -- A call sends at most `max_retries` further attempts, none if retries are off. It returns what the
  -- last attempt answered; every attempt before it failed with a retryable error. An error that is
  -- returned is not retryable, or the retries are used up. The breaker is told of a failure exactly
  -- when an error is returned that counts against it.
  pub call-IsRetry :
      (retry : RetryConfig) (attempts : ℕ → Result A Error)
      → IsRetry attempts 0 (max_retries retry) (call retry attempts)
  unfolding call
  call-IsRetry retry attempts = retry_loop-IsRetry retry attempts 0 (max_retries retry)
