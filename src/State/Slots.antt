-- ===== src/State/Slots.antt =====
-- crates/moaray/src/runtime.rs and limit.rs: a slot that does what its governance says, and a new one.
use moaray.Base.{
  ℕ, zero, suc, ◌≤◌, max, ◌≡◌, refl, subst, ◌∙◌, Option, none, some, arith, sym, ap, false,
}
use moaray.Config.Runtime.{BreakerConfig, RateLimit, ModelConfig}
use moaray.Config.Rules.{map_option}
use moaray.Limit.{Governor, TokenBucket, new_bucket, check_bucket, new_concurrency}
use moaray.Breaker
use moaray.Breaker.{closed}
use moaray.State.{UpstreamGovernance, governance_of, UpstreamState, build, check_limit}

-- The free permits of a semaphore of at most `cap` permits; no semaphore for no cap or a cap of 0.
abbrev pub Caps : Option ℕ → Option ℕ → Type 0
Caps none sem = sem ≡ none
Caps (some zero) sem = sem ≡ none
Caps (some (suc n)) sem = (free : ℕ) × (sem ≡ some free) × (free ≤ suc n)

-- All permits of a cap.
abbrev pub all_free : Option ℕ → Option ℕ
all_free none = none
all_free (some zero) = none
all_free (some (suc n)) = some (suc n)

all_free-Caps : (cap : Option ℕ) → Caps cap (all_free cap)
all_free-Caps none = refl
all_free-Caps (some zero) = refl
all_free-Caps (some (suc n)) = (suc n, refl, omega arith)

new_concurrency_sem : (cap : Option ℕ) → (new_concurrency cap).sem ≡ all_free cap
unfolding new_concurrency
new_concurrency_sem none = refl
new_concurrency_sem (some zero) = refl
new_concurrency_sem (some (suc n)) = ground arith

module _ (G : Governor) where
  -- What becomes of a limiter that is asked at some instants, in this order.
  pub data Drawn (start : G.Limiter) : G.Limiter → Type 0 where
    untouched : Drawn start start
    asked : {l : G.Limiter} (now : ℕ) → Drawn start l → Drawn start (G.check l now).0

  -- A limiter of the configured quota, at least 1 each and a burst no less than the rate.
  abbrev pub Limits : Option RateLimit → Option (TokenBucket G) → Type 0
  Limits none none = Unit
  Limits none (some b) = ⊥
  Limits (some l) none = ⊥
  Limits (some l) (some b) =
      (b.limit ≡ l) × Drawn (G.direct (max l.rps 1) (max (max l.burst l.rps) 1)) b.inner

  -- A slot that limits, caps and trips as the governance `g` says.
  pub record Serves (u : UpstreamState G) (g : UpstreamGovernance) : Type 0 where
    pub limited : Limits g.rate_limit u.limiter
    pub capped : Caps g.max_concurrency u.concurrency.sem
    pub tripping : u.breaker.cfg ≡ g.breaker

  -- A limiter of the quota that nobody has asked yet.
  abbrev pub NewLimits : Option RateLimit → Option (TokenBucket G) → Type 0
  NewLimits none none = Unit
  NewLimits none (some b) = ⊥
  NewLimits (some l) none = ⊥
  NewLimits (some l) (some b) =
      (b.limit ≡ l) × (b.inner ≡ G.direct (max l.rps 1) (max (max l.burst l.rps) 1))

  -- A slot that no request has gone through: a full quota, all permits free, and a closed breaker that
  -- has counted nothing.
  pub record IsNew (u : UpstreamState G) (g : UpstreamGovernance) : Type 0 where
    pub limited : NewLimits g.rate_limit u.limiter
    pub capped : u.concurrency.sem ≡ all_free g.max_concurrency
    pub resting : u.breaker ≡ record {
      cfg = g.breaker;
      state = closed;
      consecutive_failures = 0;
      consecutive_successes = 0;
      opened_at = none;
      probe_in_flight = false;
    }

  pub new_bucket-NewLimits : (l : RateLimit) → NewLimits (some l) (some (new_bucket G l))
  unfolding new_bucket
  new_bucket-NewLimits l = (refl, refl)

  build-NewLimits :
      (m : ModelConfig) (breaker : BreakerConfig)
      → NewLimits m.rate_limit (build G m breaker).limiter
  unfolding build
  build-NewLimits m breaker = each m.rate_limit
    where
      each : (l : Option RateLimit) → NewLimits l (map_option (new_bucket G) l)
      each none = tt
      each (some l) = new_bucket-NewLimits l

  pub build-IsNew :
      (m : ModelConfig) (breaker : BreakerConfig)
      → IsNew (build G m breaker) (governance_of m breaker)
  unfolding build Breaker.new
  build-IsNew m breaker = record {
    limited = build-NewLimits m breaker;
    capped = new_concurrency_sem m.max_concurrency;
    resting = refl;
  }

  NewLimits-Limits :
      (l : Option RateLimit) (b : Option (TokenBucket G)) → NewLimits l b → Limits l b
  NewLimits-Limits none none h = tt
  NewLimits-Limits none (some b) h = h
  NewLimits-Limits (some l) none h = h
  NewLimits-Limits (some l) (some b) h =
      (h.0, subst (Drawn (G.direct (max l.rps 1) (max (max l.burst l.rps) 1))) (sym h.1) untouched)

  pub IsNew-Serves : (u : UpstreamState G) (g : UpstreamGovernance) → IsNew u g → Serves u g
  IsNew-Serves u g v = record {
    limited = NewLimits-Limits g.rate_limit u.limiter v.limited;
    capped = subst (Caps g.max_concurrency) (sym v.capped) (all_free-Caps g.max_concurrency);
    tripping = ap (λ b. b.cfg) v.resting;
  }

  check_limit_keeps :
      (u : UpstreamState G) (now : ℕ)
      → (u.concurrency.sem ≡ (check_limit G u now).0.concurrency.sem)
        × ((check_limit G u now).0.breaker.cfg ≡ u.breaker.cfg)
  unfolding check_limit
  check_limit_keeps u now = ground arith

  -- A request that takes from the limiter leaves it one of the same quota.
  pub check_limit-Serves :
      (u : UpstreamState G) (g : UpstreamGovernance) (now : ℕ)
      → Serves u g
      → Serves (check_limit G u now).0 g
  unfolding check_limit check_bucket
  check_limit-Serves u g now v = record {
    limited = taken g.rate_limit u.limiter v.limited;
    capped = subst (Caps g.max_concurrency) (check_limit_keeps u now).0 v.capped;
    tripping = (check_limit_keeps u now).1 ∙ v.tripping;
  }
    where
      taken :
          (l : Option RateLimit) (b : Option (TokenBucket G))
          → Limits l b
          → Limits l (check_limit G (record u { limiter = b }) now).0.limiter
      taken none none h = h
      taken (some l) (some b) h = (h.0, asked now h.1)
      taken none (some b) h = h
      taken (some l) none h = h
