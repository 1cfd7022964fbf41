-- ===== src/Governed/Calls/Effects.antt =====
-- crates/moaray/src/governed.rs: what one event of one call does to the permits and the probe slot.
use moaray.Base.{
  ℕ, ◌+◌, ◌-◌, ◌≤◌, ◌≡◌, refl, sym, subst, true, Option, none, some, List, [], ◌∷◌, ◌++◌, arith,
  inl, inr,
}
use native.Mathlib.Nat.{add-zero}
use moaray.Base.Result.{Result, ok, err, Result-cases}
use moaray.Core.Error.{Error}
use moaray.Breaker.{
  Breaker, Admission, normal, probe, check_at, on_success_at, on_failure_at, release_probe,
}
use moaray.Breaker.Probes.{IsExclusive}
use moaray.Limit.{Governor}
use moaray.State.{UpstreamState, check_limit}
use moaray.Governed.{
  BreakerAction, success, failure, granted, drop_probe_guard, drop_breaker_guard, Gate, entered,
  limited, admit, acquire, finish, give_back,
}
use moaray.Governed.Calls.{Stage, waiting, calling, pausing, streaming, Call, may_grant}

abbrev pub token : Admission → ℕ
token normal = 0
token probe = 1

module _ {A : Type 0} where
  -- The permits that a call holds.
  abbrev pub held : Stage A → ℕ
  held (calling a n) = 1
  held (pausing a n) = 1
  held (streaming a) = 1
  held _ = 0

  -- The probe slots that a call holds.
  abbrev pub probing : Stage A → ℕ
  probing (waiting a) = token a
  probing (calling a n) = token a
  probing (pausing a n) = token a
  probing _ = 0

  -- What all calls hold together.
  abbrev pub total : (Stage A → ℕ) → List (Call A) → ℕ
  total f [] = 0
  total f (c ∷ cs) = f c.stage + total f cs

  pub total-append :
      (f : Stage A → ℕ) (xs ys : List (Call A)) → total f (xs ++ ys) ≡ total f xs + total f ys
  total-append f [] ys = omega arith
  total-append f (x ∷ xs) ys = omega (arith, total-append f xs ys)

-- The probe slot that an admission has reserved.
abbrev pub reserved : Gate → ℕ
reserved (entered a) = token a
reserved _ = 0

-- The free permits are those of the cap that no call holds.
abbrev pub Permits : Option ℕ → ℕ → Option ℕ → Type 0
Permits none held_by sem = sem ≡ none
Permits (some n) held_by sem = (sem ≡ some (n - held_by)) × (held_by ≤ n)

-- The slot is taken exactly while one of the calls probes.
abbrev pub Slot : Breaker → ℕ → Type 0
Slot b n = IsExclusive (record { breaker = b; normals = 0; probes = n })

module _ (G : Governor) where
  -- What the calls hold, against what the state of the upstream says.
  pub record Accounts (cap : Option ℕ) (holders probes : ℕ) (s : UpstreamState G) : Type 0 where
    pub permits : Permits cap holders s.concurrency.sem
    pub slot : Slot s.breaker probes

  drop_probe_guard-Slot :
      (a : Admission) (l : ℕ) (s : UpstreamState G)
      → Slot s.breaker (l + token a)
      → Slot (drop_probe_guard G a s).breaker l
  unfolding drop_probe_guard release_probe
  drop_probe_guard-Slot normal l s h = ground arith
  drop_probe_guard-Slot probe l s h = ground arith

  pub drop_breaker_guard-Slot :
      (a : Admission) (action : Option BreakerAction) (now l : ℕ) (s : UpstreamState G)
      → Slot s.breaker (l + token a)
      → Slot (drop_breaker_guard G a action now s).breaker l
  unfolding drop_breaker_guard on_success_at on_failure_at
  drop_breaker_guard-Slot normal (some success) now l s h = ground arith
  drop_breaker_guard-Slot normal (some failure) now l s h = ground arith
  drop_breaker_guard-Slot normal none now l s h = ground arith
  drop_breaker_guard-Slot probe (some success) now l s h = ground arith
  drop_breaker_guard-Slot probe (some failure) now l s h = ground arith
  drop_breaker_guard-Slot probe none now l s h = ground arith

  drop_probe_guard_keeps :
      (a : Admission) (s : UpstreamState G) → (drop_probe_guard G a s).concurrency ≡ s.concurrency
  unfolding drop_probe_guard
  drop_probe_guard_keeps normal s = refl
  drop_probe_guard_keeps probe s = refl

  pub drop_breaker_guard_keeps :
      (a : Admission) (action : Option BreakerAction) (now : ℕ) (s : UpstreamState G)
      → (drop_breaker_guard G a action now s).concurrency ≡ s.concurrency
  unfolding drop_breaker_guard
  drop_breaker_guard_keeps a (some success) now s = refl
  drop_breaker_guard_keeps a (some failure) now s = refl
  drop_breaker_guard_keeps a none now s = refl

  finish-Slot :
      (a : Admission) (action : Option BreakerAction) (now l : ℕ) (s : UpstreamState G)
      → Slot s.breaker (l + token a)
      → Slot (finish G a action now s).breaker l
  unfolding finish
  finish-Slot a action now l s h = drop_breaker_guard-Slot a action now l s h

  pub give_back-Permits :
      (cap : Option ℕ) (k : ℕ) (s : UpstreamState G)
      → Permits cap (k + 1) s.concurrency.sem
      → Permits cap k (give_back G s.concurrency).sem
  unfolding give_back
  give_back-Permits none k s h = ground (arith, h)
  give_back-Permits (some n) k s h = ground (arith, h.0, h.1)

  finish-Permits :
      (cap : Option ℕ) (a : Admission) (action : Option BreakerAction) (now k : ℕ)
      (s : UpstreamState G)
      → Permits cap (k + 1) s.concurrency.sem
      → Permits cap k (finish G a action now s).concurrency.sem
  unfolding finish
  finish-Permits cap a action now k s h =
      rw (drop_breaker_guard_keeps a action now s) (give_back-Permits cap k s h)

  take-Permits :
      (cap : Option ℕ) (a : Admission) (k : ℕ) (s : UpstreamState G)
      → may_grant s.concurrency ≡ true
      → Permits cap k s.concurrency.sem
      → Permits cap (k + 1) (acquire G a granted s).0.concurrency.sem
  unfolding acquire
  take-Permits none a k s g h = ground (arith, g, h)
  take-Permits (some n) a k s g h = ground (arith, g, h.0, h.1)

  -- A finished call holds nothing.
  pub finish-Accounts :
      (cap : Option ℕ) (k l : ℕ) (a : Admission) (action : Option BreakerAction) (now : ℕ)
      (s : UpstreamState G)
      → Accounts cap (k + 1) (l + token a) s
      → Accounts cap (k + 0) (l + 0) (finish G a action now s)
  finish-Accounts cap k l a action now s h =
      rw (add-zero k, add-zero l)
        (record {
          permits = finish-Permits cap a action now k s h.permits;
          slot = finish-Slot a action now l s h.slot;
        })

  -- Nor does one that gets no permit.
  pub unadmitted-Accounts :
      (cap : Option ℕ) (k l : ℕ) (a : Admission) (s : UpstreamState G)
      → Accounts cap (k + 0) (l + token a) s
      → Accounts cap (k + 0) (l + 0) (drop_probe_guard G a s)
  unadmitted-Accounts cap k l a s h = rw (add-zero l) (record {
    permits = rw (drop_probe_guard_keeps a s) h.permits;
    slot = drop_probe_guard-Slot a l s h.slot;
  })

  pub granted-Accounts :
      (cap : Option ℕ) (k l : ℕ) (a : Admission) (s : UpstreamState G)
      → may_grant s.concurrency ≡ true
      → Accounts cap (k + 0) (l + token a) s
      → Accounts cap (k + 1) (l + token a) (acquire G a granted s).0
  unfolding acquire
  granted-Accounts cap k l a s g h = record {
    permits = take-Permits cap a k s g (rw (← add-zero k) h.permits);
    slot = h.slot;
  }

  pub recount :
      {cap : Option ℕ} {k m l n : ℕ} {s : UpstreamState G}
      → k ≡ m
      → l ≡ n
      → Accounts cap k l s
      → Accounts cap m n s
  recount e f h = rw (← e, ← f) h

  -- A breaker that admits a call gives the slot to it or to nobody; one that refuses keeps it.
  check-Slot :
      (b : Breaker) (now l : ℕ) {a : Admission}
      → Slot b l
      → (check_at b now).1 ≡ ok a
      → Slot (check_at b now).0 (l + token a)
  unfolding check_at
  check-Slot b now l {a = normal} h e = ground arith
  check-Slot b now l {a = probe} h e = ground arith

  check-Slot_refused :
      (b : Breaker) (now l : ℕ) {e : Error}
      → Slot b l
      → (check_at b now).1 ≡ err e
      → Slot (check_at b now).0 l
  unfolding check_at
  check-Slot_refused b now l h r = ground arith

  check_limit_keeps :
      (s : UpstreamState G) (now : ℕ)
      → ((check_limit G s now).0.breaker ≡ s.breaker)
        × ((check_limit G s now).0.concurrency ≡ s.concurrency)
  unfolding check_limit
  check_limit_keeps s now = (ground arith, ground arith)

  limited-Accounts :
      (cap : Option ℕ) (k l : ℕ) (a : Admission) (x : UpstreamState G × Result (Unit {0}) Error)
      → Accounts cap k (l + token a) x.0
      → let (u, gate) = limited G a x in Accounts cap k (l + reserved gate) u
  unfolding limited
  limited-Accounts cap k l a (s, ok tt) h = h
  limited-Accounts cap k l a (s, err e) h = rw (add-zero l) (record {
    permits = rw (drop_probe_guard_keeps a s) h.permits;
    slot = drop_probe_guard-Slot a l s h.slot;
  })

  pub admit-Accounts :
      (cap : Option ℕ) (k l now : ℕ) (s : UpstreamState G)
      → Accounts cap k l s
      → let (u, gate) = admit G s now in Accounts cap k (l + reserved gate) u
  unfolding admit
  admit-Accounts cap k l now s h = elim (Result-cases (check_at s.breaker now).1) [
    | inr (e, refusal) ↦
        rw (refusal, admit, add-zero l)
          (record { permits = h.permits; slot = check-Slot_refused s.breaker now l h.slot refusal })
    | inl (a, through) ↦
        let asked = record s { breaker = (check_at s.breaker now).0 } in
        rw (through, admit)
          (limited-Accounts cap k l a (check_limit G asked now) (record {
            permits =
                subst (λ c. Permits cap k c.sem) (sym (check_limit_keeps asked now).1) h.permits;
            slot =
                subst (λ b. Slot b (l + token a)) (sym (check_limit_keeps asked now).0)
                  (check-Slot s.breaker now l h.slot through);
          }))
  ]
