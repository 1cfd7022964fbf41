-- ===== src/Governed/Calls/Balanced.antt =====
-- crates/moaray/src/governed.rs: the permits and the probe slot after any history of calls.
use moaray.Base.{
  ℕ, zero, suc, ◌+◌, ◌≤◌, ◌<◌, ◌≡◌, ap, refl, true, false, subst, sym, is_some, Bool-cases, ◌&&◌,
  inl, inr, Option, none, some, List, [], ◌∷◌, All, arith, ltb, if◌then◌else◌,
}
use native.Mathlib.Nat.{add-zero}
use moaray.Base.Result.{Result, ok, err}
use moaray.Core.Error.{Error, is_retryable}
use moaray.Config.Runtime.{RetryConfig, BreakerConfig, ModelConfig}
use moaray.Breaker.{half_open, Admission, new}
use moaray.Limit.{Governor, new_concurrency}
use moaray.State.{UpstreamState, build}
use moaray.Governed.{
  granted, closed, dropped, Gate, entered, refused, cancelled, success, admit, acquire,
  drop_breaker_guard, max_retries, record_error,
}
use moaray.Governed.Calls.{
  Mode, whole, streamed, Stage, waiting, calling, pausing, streaming, ended, Event, waits, answers,
  wakes, drops, Call, Action, arrives, happens, System, may_grant, attach_permit, on_answer,
  proceed, deliver, arrived, step, run,
}
use moaray.Governed.Calls.Effects.{
  token, held, probing, total, total-append, Permits, Slot, Accounts, granted-Accounts,
  unadmitted-Accounts, finish-Accounts, recount, reserved, admit-Accounts, drop_breaker_guard-Slot,
  drop_breaker_guard_keeps, give_back-Permits,
}

capless-Permits : (cap : Option ℕ) (k m : ℕ) → Permits cap k none → Permits cap m none
capless-Permits none k m h = h
capless-Permits (some n) k m h = cc (h.0)

fresh-Permits : (cap : Option ℕ) → Permits cap 0 cap
fresh-Permits none = refl
fresh-Permits (some n) = (ap some (omega arith), omega arith)

Permits-bounds :
    (cap : Option ℕ) (h : ℕ) (sem : Option ℕ) {n : ℕ} → Permits cap h sem → cap ≡ some n → h ≤ n
Permits-bounds none h sem p e = cc
Permits-bounds (some m) h sem p e = ground (arith, p.1)

new_concurrency-some :
    (cap : Option ℕ) (n : ℕ) → cap ≡ some n → 0 < n → (new_concurrency cap).sem ≡ some n
unfolding new_concurrency
new_concurrency-some none n e p = cc
new_concurrency-some (some m) n e p = ground arith

module _ {A : Type 0} (G : Governor) where
  -- A stream keeps its permit, if it has one, and does not probe.
  attached :
      (cap : Option ℕ) (k l : ℕ) (x : A) (sem : Option ℕ)
      → Permits cap (k + 1) sem
      → let p = if is_some sem then streaming x else ended (some (ok x)) in
        Permits cap (k + held p) sem × (l + probing p ≡ l)
  attached cap k l x none h = (capless-Permits cap (k + 1) (k + 0) h, add-zero l)
  attached cap k l x (some n) h = (h, add-zero l)

  handshake-Accounts :
      (cap : Option ℕ) (k l : ℕ) (now : ℕ) (a : Admission) (x : A) (s : UpstreamState G)
      → Accounts G cap (k + 1) (l + token a) s
      → let p = attach_permit G x s in
        Accounts G cap (k + held p) (l + probing p) (drop_breaker_guard G a (some success) now s)
  unfolding attach_permit
  handshake-Accounts cap k l now a x s h =
      let kept = attached cap k l x s.concurrency.sem h.permits in
      record {
        permits =
            subst (λ c. Permits cap (k + held (attach_permit G x s)) c.sem)
              (sym (drop_breaker_guard_keeps G a (some success) now s)) kept.0;
        slot =
            subst (Slot (drop_breaker_guard G a (some success) now s).breaker) (sym kept.1)
              (drop_breaker_guard-Slot G a (some success) now l s h.slot);
      }

  on_answer-Accounts :
      (cap : Option ℕ) (k l : ℕ) (retry : RetryConfig) (mode : Mode) (now : ℕ) (a : Admission)
      (n : ℕ) (r : Result A Error) (s : UpstreamState G)
      → Accounts G cap (k + 1) (l + token a) s
      → let (u, p) = on_answer G retry mode now a n r s in
        Accounts G cap (k + held p) (l + probing p) u
  unfolding on_answer
  on_answer-Accounts cap k l retry whole now a n (ok x) s h =
      finish-Accounts G cap k l a (some success) now s h
  on_answer-Accounts cap k l retry streamed now a n (ok x) s h =
      handshake-Accounts cap k l now a x s h
  on_answer-Accounts cap k l retry streamed now a n (err e) s h =
      finish-Accounts G cap k l a (some (record_error e)) now s h
  on_answer-Accounts cap k l retry whole now a n (err e) s h =
      elim (Bool-cases (ltb n (max_retries retry) && is_retryable e)) [
        | inl again ↦ rw again h
        | inr over ↦ rw over (finish-Accounts G cap k l a (some (record_error e)) now s h)
      ]

  -- Whatever a call does, what it holds and what the others hold accounts for the state.
  proceed-Accounts :
      (cap : Option ℕ) (k l : ℕ) (retry : RetryConfig) (mode : Mode) (now : ℕ) (p : Stage A)
      (e : Event A) (s : UpstreamState G)
      → Accounts G cap (k + held p) (l + probing p) s
      → let (u, q) = proceed G retry mode now p e s in Accounts G cap (k + held q) (l + probing q) u
  unfolding proceed acquire
  proceed-Accounts cap k l retry mode now (waiting a) (waits granted) s h =
      elim (Bool-cases (may_grant s.concurrency)) [
        | inl free ↦ rw free (granted-Accounts G cap k l a s free h)
        | inr full ↦ rw full h
      ]
  proceed-Accounts cap k l retry mode now (waiting a) (waits closed) s h =
      unadmitted-Accounts G cap k l a s h
  proceed-Accounts cap k l retry mode now (waiting a) (waits dropped) s h =
      unadmitted-Accounts G cap k l a s h
  proceed-Accounts cap k l retry mode now (waiting a) drops s h =
      unadmitted-Accounts G cap k l a s h
  proceed-Accounts cap k l retry mode now (calling a n) (answers r) s h =
      on_answer-Accounts cap k l retry mode now a n r s h
  proceed-Accounts cap k l retry mode now (calling a n) drops s h =
      finish-Accounts G cap k l a none now s h
  proceed-Accounts cap k l retry mode now (pausing a n) wakes s h = h
  proceed-Accounts cap k l retry mode now (pausing a n) drops s h =
      finish-Accounts G cap k l a none now s h
  proceed-Accounts cap k l retry mode now (streaming x) drops s h = record {
    permits = rw (add-zero k) (give_back-Permits G cap k s h.permits);
    slot = h.slot;
  }
  proceed-Accounts cap k l retry mode now p e s h = h

  deliver-Accounts :
      (cap : Option ℕ) (k l : ℕ) (retry : RetryConfig) (i now : ℕ) (e : Event A)
      (cs : List (Call A)) (s : UpstreamState G)
      → Accounts G cap (k + total held cs) (l + total probing cs) s
      → let (u, ds) = deliver G retry i now e cs s in
        Accounts G cap (k + total held ds) (l + total probing ds) u
  unfolding deliver
  deliver-Accounts cap k l retry i now e [] s h = h
  deliver-Accounts cap k l retry zero now e (c ∷ cs) s h = recount G (omega arith) (omega arith) (
      proceed-Accounts cap (k + total held cs) (l + total probing cs) retry c.mode now c.stage e s
        (recount G (omega arith) (omega arith) h))
  deliver-Accounts cap k l retry (suc i) now e (c ∷ cs) s h =
      recount G (omega arith) (omega arith) (
        deliver-Accounts cap (k + held c.stage) (l + probing c.stage) retry i now e cs s
          (recount G (omega arith) (omega arith) h))

module _ (A : Type 0) (G : Governor) where
  arrived-Accounts :
      (cap : Option ℕ) (k l : ℕ) (gate : UpstreamState G × Gate)
      → Accounts G cap k (l + reserved gate.1) gate.0
      → let (u, p) = arrived {A = A} G gate in Accounts G cap (k + held p) (l + probing p) u
  unfolding arrived
  arrived-Accounts cap k l (u, entered a) h = recount G (omega arith) refl h
  arrived-Accounts cap k l (u, refused e) h = recount G (omega arith) refl h
  arrived-Accounts cap k l (u, cancelled) h = recount G (omega arith) refl h

abbrev pub IsEnded : {A : Type 0} → Stage A → Type 0
IsEnded (ended r) = Unit
IsEnded _ = ⊥

module _ {A : Type 0} (G : Governor) where
  -- What all calls hold, against the state of the upstream.
  abbrev AccountsFor : Option ℕ → System G A → Type 0
  AccountsFor cap s = Accounts G cap (total held s.calls) (total probing s.calls) s.upstream

  step-AccountsFor :
      (cap : Option ℕ) (retry : RetryConfig) (s : System G A) (a : Action A)
      → AccountsFor cap s
      → AccountsFor cap (step G retry s a)
  unfolding step
  step-AccountsFor cap retry s (arrives mode now) h =
      let c : Call A = record {
        mode = mode;
        stage = (arrived {A = A} G (admit G s.upstream now)).1;
      } in
      recount G (omega (arith, total-append held s.calls (c ∷ [])))
        (omega (arith, total-append probing s.calls (c ∷ [])))
        (arrived-Accounts A G cap (total held s.calls) (total probing s.calls)
          (admit G s.upstream now)
          (admit-Accounts G cap (total held s.calls) (total probing s.calls) now s.upstream h))
  step-AccountsFor cap retry s (happens i now e) h = recount G (omega arith) (omega arith) (
      deliver-Accounts G cap 0 0 retry i now e s.calls s.upstream
        (recount G (omega arith) (omega arith) h))

  run-AccountsFor :
      (cap : Option ℕ) (retry : RetryConfig) (s : System G A) (actions : List (Action A))
      → AccountsFor cap s
      → AccountsFor cap (run G retry s actions)
  unfolding run
  run-AccountsFor cap retry s [] h = h
  run-AccountsFor cap retry s (a ∷ rest) h =
      run-AccountsFor cap retry (step G retry s a) rest (step-AccountsFor cap retry s a h)

  ended_holds_nothing : (p : Stage A) → IsEnded p → (held p ≡ 0) × (probing p ≡ 0)
  ended_holds_nothing (ended r) h = (refl, refl)
  ended_holds_nothing (waiting a) h = absurd h
  ended_holds_nothing (calling a n) h = absurd h
  ended_holds_nothing (pausing a n) h = absurd h
  ended_holds_nothing (streaming x) h = absurd h

  all_ended :
      (cs : List (Call A))
      → All (λ (c : Call A). IsEnded c.stage) cs
      → (total held cs ≡ 0) × (total probing cs ≡ 0)
  all_ended [] h = (refl, refl)
  all_ended (c ∷ cs) h = omega (arith, ended_holds_nothing c.stage h.0, all_ended cs h.1)

  abbrev pub start : ModelConfig → BreakerConfig → System G A
  start model breaker = record { upstream = build G model breaker; calls = [] }

  -- What the calls of an upstream hold of it, whose cap is `n` if it has one.
  pub record IsBalanced (cap : Option ℕ) (s : System G A) : Type 0 where
    pub capped : (n : ℕ) → cap ≡ some n → 0 < n → total held s.calls ≤ n
    pub one_probe : total probing s.calls ≤ 1
    pub exclusive :
        1 ≤ total probing s.calls
        → (s.upstream.breaker.state ≡ half_open) × (s.upstream.breaker.probe_in_flight ≡ true)
    pub given_back :
        All (λ (c : Call A). IsEnded c.stage) s.calls
        → (s.upstream.concurrency ≡ new_concurrency cap)
          × (s.upstream.breaker.probe_in_flight ≡ false)

  all_free :
      (cap : Option ℕ) (s : System G A)
      → AccountsFor cap s
      → total held s.calls ≡ 0
      → s.upstream.concurrency.sem ≡ cap
  all_free none s h e = h.permits
  all_free (some n) s h e = ground (arith, h.permits.0, e)

  -- However the calls of an upstream interleave, fail, are retried, stream or are dropped: those that
  -- are with the upstream or pause before a retry, with the streams that have not ended, are never
  -- more than the cap; at most one call probes, and while it does the breaker is half-open with its
  -- slot taken; and when every call has ended all permits and the probe slot are free.
  pub run-IsBalanced :
      (model : ModelConfig) (breaker : BreakerConfig) (retry : RetryConfig)
      (actions : List (Action A))
      → IsBalanced model.max_concurrency (run G retry (start model breaker) actions)
  unfolding build new
  run-IsBalanced model breaker retry actions = record {
    capped = λ n e p.
        Permits-bounds _ _ _ accounts.permits (new_concurrency-some model.max_concurrency n e p);
    one_probe = ground (arith, accounts.slot.slot);
    exclusive = λ h. ground (arith, h, accounts.slot.slot, accounts.slot.only_half_open);
    given_back = λ h. (
      ap (λ c. record { sem = c }) (all_free _ after accounts (all_ended after.calls h).0),
      ground (arith, accounts.slot.slot, (all_ended after.calls h).1),
    );
  }
    where
      after : System G A
      after = run G retry (start model breaker) actions

      accounts : AccountsFor (new_concurrency model.max_concurrency).sem after
      accounts = run-AccountsFor _ retry (start model breaker) actions (record {
        permits = fresh-Permits _;
        slot = record { slot = refl; only_half_open = λ e. cc };
      })
