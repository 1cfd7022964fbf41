-- ===== src/Governed/Probe.antt =====
-- crates/moaray/src/governed.rs: whichever way a call ends, it gives back what it reserved.
use moaray.Base.{ℕ, ◌≡◌, ◌≢◌, false, Option, some, arith}
use moaray.Breaker.{
  half_open, Admission, normal, probe, on_success_at, on_failure_at, release_probe,
}
use moaray.Limit.{Governor}
use moaray.State.{UpstreamState}
use moaray.Governed.{
  Wait, granted, entered, BreakerAction, drop_probe_guard, acquire, drop_breaker_guard, finish,
}

module _ (G : Governor) where
  -- How a call that was admitted as `admission` may leave the shared state.
  pub record GivesBack (admission : Admission) (s : UpstreamState G) : Type 0 where
    pub no_permit :
        (w : Wait)
        → (acquire G admission w s).1 ≢ entered admission
        → admission ≡ probe
        → (acquire G admission w s).0.breaker.probe_in_flight ≡ false
    pub finished :
        (action : Option BreakerAction) (now : ℕ)
        → admission ≡ probe
        → (finish G admission action now s).breaker.probe_in_flight ≡ false
    pub not_mine :
        (action : Option BreakerAction) (now : ℕ) (w : Wait)
        → admission ≡ normal
        → ((acquire G admission w s).0.breaker ≡ s.breaker)
          × ((finish G admission action now s).breaker ≡ s.breaker)
    pub permits :
        (action : Option BreakerAction) (now : ℕ)
        → s.concurrency.sem ≢ some 0
        → (finish G admission action now (acquire G admission granted s).0).concurrency.sem
          ≡ s.concurrency.sem

  -- While the breaker is half-open, a probe that gets no permit, that ends in success or failure, or
  -- that is dropped on the way frees the probe slot; a call admitted before leaves the breaker, and so
  -- another call's probe, alone; and a permit that was taken is given back.
  pub half_open-GivesBack :
      (admission : Admission) (s : UpstreamState G)
      → s.breaker.state ≡ half_open
      → GivesBack admission s
  unfolding acquire finish drop_breaker_guard drop_probe_guard release_probe on_success_at
      on_failure_at
  half_open-GivesBack admission s h = record {
    no_permit = λ w n a. ground (arith, h, n, a);
    finished = λ action now a. ground (arith, h, a);
    not_mine = λ action now w a. (ground (arith, h, a), ground (arith, h, a));
    permits = λ action now n. ground (arith, n);
  }
