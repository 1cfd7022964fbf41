-- ===== src/State.antt =====
-- crates/moaray/src/runtime.rs: the state per upstream and per key that outlives a reload. An `Arc` is
-- an address with what stands there; fresh addresses count up.
pub mod Reconcile
pub mod Keys
pub mod Slots
pub mod Serving
mod Examples
use moaray.Base.{
  ℕ, suc, ◌-◌, ◌+◌, String, str_eq, Bool, true, false, not, ◌&&◌, Option, none, some, List, [], ◌∷◌,
  if◌then◌else◌, ◌==◌, any, map, length, is_some,
}
use moaray.Base.Dict
use moaray.Base.Dict.{Dict}
use moaray.Base.Result.{Result, ok, err}
use moaray.Core.Error.{Error}
use moaray.Config.Runtime.{BreakerConfig, RateLimit, KeyConfig, ModelConfig, RuntimeConfig}
use moaray.Config.Rules.{rate_limit_eq, number_eq, map_option}
use moaray.Breaker
use moaray.Breaker.{Breaker}
use moaray.Limit.{Governor, TokenBucket, new_bucket, check_bucket, Concurrency, new_concurrency}

pub record Arc (A : Type 0) : Type 0 where
  pub address : ℕ
  pub value : A

pub record UpstreamGovernance : Type 0 where
  pub rate_limit : Option RateLimit
  pub max_concurrency : Option ℕ
  pub breaker : BreakerConfig

abbrev pub governance_of : ModelConfig → BreakerConfig → UpstreamGovernance
governance_of model breaker_cfg = record {
  rate_limit = model.rate_limit;
  max_concurrency = model.max_concurrency;
  breaker = breaker_cfg;
}

abbrev pub breaker_config_eq : BreakerConfig → BreakerConfig → Bool
breaker_config_eq a b =
    (a.failure_threshold == b.failure_threshold)
    && (a.open_ms == b.open_ms)
    && (a.half_open_successes == b.half_open_successes)

unfoldable pub governance_eq : UpstreamGovernance → UpstreamGovernance → Bool
governance_eq a b =
    rate_limit_eq a.rate_limit b.rate_limit
    && number_eq a.max_concurrency b.max_concurrency
    && breaker_config_eq a.breaker b.breaker

-- `live_upstreams.contains`.
unfoldable pub live_upstream : RuntimeConfig → String → Bool
live_upstream config k = any (λ (m : ModelConfig). str_eq m.state_key k) (Dict.values config.models)

-- `live_keys.contains`.
unfoldable pub live_key : RuntimeConfig → String → Bool
live_key config id = any (λ (k : KeyConfig). is_some k.rate_limit && str_eq k.id id) config.keys

module _ (G : Governor) where
  pub record UpstreamState : Type 0 where
    pub limiter : Option (TokenBucket G)
    pub concurrency : Concurrency
    pub breaker : Breaker
    pub governance : UpstreamGovernance

  unfoldable pub build : ModelConfig → BreakerConfig → UpstreamState
  build model breaker_cfg = record {
    limiter = map_option (new_bucket G) model.rate_limit;
    concurrency = new_concurrency model.max_concurrency;
    breaker = Breaker.new breaker_cfg;
    governance = governance_of model breaker_cfg;
  }

  -- `check_limit` at an instant.
  unfoldable pub check_limit : UpstreamState → ℕ → UpstreamState × Result (Unit {0}) Error
  check_limit s now = elim s.limiter [
    | none ↦ (s, ok tt)
    | some b ↦
        let (bucket, answer) = check_bucket G b now in (record s { limiter = some bucket }, answer)
  ]

  pub record StatefulState : Type 0 where
    pub per_upstream : Dict (Arc UpstreamState)
    pub per_key : Dict (Arc (TokenBucket G))
    -- the next fresh address
    pub next : ℕ

  abbrev pub empty : StatefulState
  empty = record { per_upstream = []; per_key = []; next = 0 }

  -- Whether the slot that is there, if any, may stay.
  abbrev pub preserves : Option (Arc UpstreamState) → UpstreamGovernance → Bool
  preserves none want = false
  preserves (some e) want = governance_eq e.value.governance want

  -- The loop body of `ensure_for_config`.
  unfoldable pub ensure_model : BreakerConfig → ModelConfig → StatefulState → StatefulState
  ensure_model breaker m s =
      let want = governance_of m breaker in
      if preserves (Dict.get s.per_upstream m.state_key) want then s else record s {
        per_upstream =
            Dict.insert s.per_upstream m.state_key
              (record { address = s.next; value = build m breaker });
        next = suc s.next;
      }

  unfoldable pub ensure_models : BreakerConfig → List ModelConfig → StatefulState → StatefulState
  ensure_models breaker [] s = s
  ensure_models breaker (m ∷ ms) s = ensure_models breaker ms (ensure_model breaker m s)

  unfoldable pub ensure_for_config : StatefulState → RuntimeConfig → StatefulState
  ensure_for_config s config = ensure_models config.server.breaker (Dict.values config.models) s

  -- The loop body of `install_key_limiters`, with the number of buckets added or changed.
  unfoldable pub install_key : KeyConfig → StatefulState × ℕ → StatefulState × ℕ
  install_key k (s, updated) = elim k.rate_limit [
    | none ↦ (s, updated)
    | some limit ↦
        let preserve : Bool = elim (Dict.get s.per_key k.id) [
          | none ↦ false
          | some e ↦ rate_limit_eq (some e.value.limit) (some limit)
        ] in
        if preserve then (s, updated) else (
          record s {
            per_key =
                Dict.insert s.per_key k.id
                  (record { address = s.next; value = new_bucket G limit });
            next = suc s.next;
          },
          suc updated,
        )
  ]

  unfoldable pub install_keys : List KeyConfig → StatefulState × ℕ → StatefulState × ℕ
  install_keys [] s = s
  install_keys (k ∷ ks) s = install_keys ks (install_key k s)

  unfoldable pub install_key_limiters : StatefulState → RuntimeConfig → StatefulState × ℕ
  install_key_limiters s config = install_keys config.keys (s, 0)

  unfoldable pub from_config : RuntimeConfig → StatefulState
  from_config config = (install_key_limiters (ensure_for_config empty config) config).0

  unfoldable pub retain_for_config : StatefulState → RuntimeConfig → StatefulState × ℕ
  retain_for_config s config =
      let kept = Dict.retain (live_upstream config) s.per_upstream in
      (record s { per_upstream = kept }, length s.per_upstream - length kept)

  unfoldable pub retain_key_limiters : StatefulState → RuntimeConfig → StatefulState × ℕ
  retain_key_limiters s config =
      let kept = Dict.retain (live_key config) s.per_key in
      (record s { per_key = kept }, length s.per_key - length kept)

  unfoldable pub upstream : StatefulState → String → Option (Arc UpstreamState)
  upstream s state_key = Dict.get s.per_upstream state_key

  -- `check_key_limit` at an instant.
  unfoldable pub check_key_limit :
      StatefulState → String → ℕ → StatefulState × Result (Unit {0}) Error
  check_key_limit s caller_key_id now = elim (Dict.get s.per_key caller_key_id) [
    | none ↦ (s, ok tt)
    | some e ↦
        let (bucket, answer) = check_bucket G e.value now in
        (
          record s { per_key = Dict.insert s.per_key caller_key_id (record e { value = bucket }) },
          answer,
        )
  ]
