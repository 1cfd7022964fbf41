-- ===== src/Governed/Calls/Settled.antt =====
-- crates/moaray/src/governed.rs: what a call by itself does to its upstream, event by event.
use moaray.Base.{
  ℕ, suc, ◌≤◌, ◌<◌, ◌≡◌, refl, sym, ap, subst, ◌∙◌, Option, none, some, ◌⊎◌, inl, inr, true, false,
  if◌then◌else◌, Bool-cases, length, arith,
}
use moaray.Base.Result.{Result, ok, err, Result-cases}
use moaray.Core.Error.{Error, is_retryable, counts_against_breaker}
use moaray.Config.Runtime.{RetryConfig}
use moaray.Breaker.{Breaker, Admission, on_success_at, on_failure_at}
use moaray.Limit.{Governor}
use moaray.State.{UpstreamState}
use moaray.Governed.{
  BreakerAction, success, failure, Finished, drop_breaker_guard, give_back, finish, max_retries,
  call,
}
use moaray.Governed.Retry.{IsRetry, call-IsRetry}
use moaray.Governed.Calls.{Stage, calling, ended}
use moaray.Governed.Calls.Alone.{drive, answers_from, drive-call}

action-cases : (a : BreakerAction) → (a ≡ success) ⊎ (a ≡ failure)
action-cases success = inl refl
action-cases failure = inr refl

-- One more permit, where permits are counted.
abbrev pub one_more : Option ℕ → Option ℕ
one_more none = none
one_more (some free) = some (suc free)

module _ (G : Governor) where
  finish_keeps :
      (a : Admission) (action : BreakerAction) (now : ℕ) (s : UpstreamState G)
      → ((finish G a (some action) now s).concurrency.sem ≡ one_more s.concurrency.sem)
        × ((finish G a (some action) now s).limiter ≡ s.limiter)
  unfolding finish drop_breaker_guard give_back
  finish_keeps a success now s = ground arith
  finish_keeps a failure now s = ground arith

  finish_success :
      (a : Admission) (now : ℕ) (s : UpstreamState G)
      → (finish G a (some success) now s).breaker ≡ on_success_at s.breaker now a
  unfolding finish drop_breaker_guard
  finish_success a now s = refl

  finish_failure :
      (a : Admission) (now : ℕ) (s : UpstreamState G)
      → (finish G a (some failure) now s).breaker ≡ on_failure_at s.breaker now a
  unfolding finish drop_breaker_guard
  finish_failure a now s = refl

module _ {A : Type 0} (G : Governor) where
  -- What the breaker is told: a failure for an error that counts against it, else a success.
  pub data Told (r : Result A Error) (now : ℕ) (a : Admission) (b : Breaker)
      : Breaker → Type 0 where
    of_failure :
        (e : Error)
        → r ≡ err e
        → counts_against_breaker e ≡ true
        → Told r now a b (on_failure_at b now a)
    of_success : (x : A) → r ≡ ok x → Told r now a b (on_success_at b now a)
    of_neutral_error :
        (e : Error)
        → r ≡ err e
        → counts_against_breaker e ≡ false
        → Told r now a b (on_success_at b now a)

  -- A call admitted as `a` in the state `s` has made `further` attempts after its first.
  pub record Settles (retry : RetryConfig) (attempts : ℕ → Result A Error) (a : Admission) (now : ℕ)
      (s : UpstreamState G) (further : ℕ) (left : UpstreamState G × Stage A) : Type 0 where
    pub bounded : further ≤ (if retry.enabled then retry.max_retries else 0)
    pub before :
        (i : ℕ) → i < further → (e : Error) × (attempts i ≡ err e) × (is_retryable e ≡ true)
    pub gave_up :
        (e : Error)
        → attempts further ≡ err e
        → (further ≡ (if retry.enabled then retry.max_retries else 0)) ⊎ (is_retryable e ≡ false)
    pub returned : left.1 ≡ ended (some (attempts further))
    pub permit : left.0.concurrency.sem ≡ one_more s.concurrency.sem
    pub limiter : left.0.limiter ≡ s.limiter
    pub told : Told (attempts further) now a s.breaker left.0.breaker

  finish-Told :
      (attempts : ℕ → Result A Error) (from left : ℕ) (f : Finished A) (a : Admission) (now : ℕ)
      (s : UpstreamState G)
      → IsRetry attempts from left f
      → Told f.result now a s.breaker (finish G a (some f.action) now s).breaker
  finish-Told attempts from left f a now s v = elim (action-cases f.action) [
    | inr fails ↦
        let (e, r, counts) = v.reported.0 fails in
        subst (Told f.result now a s.breaker)
          (sym (ap (λ x. (finish G a (some x) now s).breaker) fails ∙ finish_failure G a now s))
          (of_failure e r counts)
    | inl succeeds ↦
        subst (Told f.result now a s.breaker)
          (sym (ap (λ x. (finish G a (some x) now s).breaker) succeeds ∙ finish_success G a now s))
          (elim (Result-cases f.result) [
            | inl (x, r) ↦ of_success x r
            | inr (e, r) ↦ elim (Bool-cases (counts_against_breaker e)) [
              | inr neutral ↦ of_neutral_error e r neutral
              | inl counts ↦ absurd (differ (sym succeeds ∙ v.reported.1 (e, r, counts)))
            ]
          ])
  ]
    where
      differ : ◌≡◌ {A = BreakerAction} success failure → ⊥
      differ h = cc

  -- A call by itself, once it has its permit, answered as the attempts say and woken after each pause:
  -- it makes at most `max_retries` further attempts, none if retries are off, each after a retryable
  -- error, and stops at an answer that is no retryable error or with its retries used up. It returns its
  -- last answer, gives back its one permit, leaves the limiter alone, and tells the breaker of a
  -- failure exactly when that answer is an error that counts against it, else of a success.
  pub drive-Settles :
      (retry : RetryConfig) (attempts : ℕ → Result A Error) (a : Admission) (now : ℕ)
      (s : UpstreamState G)
      → (further : ℕ) × Settles retry attempts a now s further
          (drive G retry now (answers_from G attempts 0 further) (s, calling a 0))
  unfolding max_retries
  drive-Settles retry attempts a now s =
      let f = call retry attempts in
      let v = call-IsRetry retry attempts in
      let last : f.result ≡ attempts (length f.pauses) = v.last ∙ ap attempts (omega arith) in
      let kept = finish_keeps G a f.action now s in
      (
        length f.pauses,
        subst (Settles retry attempts a now s (length f.pauses))
            (sym (drive-call G retry attempts a now s))
            (record {
              bounded = v.bounded;
              before = λ i less. v.before i (omega arith) (omega (arith, less));
              gave_up = λ e h. v.gave_up e (last ∙ h);
              returned = ap (λ r. ended (some r)) last;
              permit = kept.0;
              limiter = kept.1;
              told =
                  subst (λ r. Told r now a s.breaker (finish G a (some f.action) now s).breaker)
                    last (finish-Told attempts 0 _ f a now s v);
            }),
      )
