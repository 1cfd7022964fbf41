-- ===== src/State/Serving.antt =====
-- crates/moaray/src/runtime.rs: after a reload every slot does what its governance says.
use moaray.Base.{String, str_eq, ◌≡◌, subst, some, List, [], ◌∷◌, arith, Bool-cases, inl, inr, ◌⊎◌}
use moaray.Base.Dict
use moaray.Config.Runtime.{BreakerConfig, ModelConfig, RuntimeConfig}
use moaray.Config.Validate.WellFormed.{WellFormed}
use moaray.Limit.{Governor}
use moaray.State.{
  Arc, governance_of, UpstreamState, build, StatefulState, preserves, ensure_model, ensure_models,
  ensure_for_config, upstream, empty,
}
use moaray.State.Reconcile.{Reconciled, ensure_for_config-Reconciled}
use moaray.State.Slots.{Serves, IsNew, build-IsNew, IsNew-Serves}

module _ (G : Governor) where
  -- Each slot serves its own governance.
  abbrev pub AllServe : StatefulState G → Type 0
  AllServe s =
      (k : String) (a : Arc (UpstreamState G))
      → upstream G s k ≡ some a
      → Serves G a.value a.value.governance

  -- Each slot that stands after `ensure_model` stood there before, or is new.
  abbrev pub OldOrNew : StatefulState G → StatefulState G → Type 0
  OldOrNew before after =
      (k : String) (a : Arc (UpstreamState G))
      → upstream G after k ≡ some a
      → (upstream G before k ≡ some a) ⊎ IsNew G a.value a.value.governance

  ensure_model-OldOrNew :
      (breaker : BreakerConfig) (m : ModelConfig) (s : StatefulState G)
      → OldOrNew s (ensure_model G breaker m s)
  unfolding ensure_model upstream build
  ensure_model-OldOrNew breaker m s k a f =
      let fresh : Arc (UpstreamState G) = record { address = s.next; value = build G m breaker } in
      let put = Dict.get-insert s.per_upstream m.state_key k fresh in
      elim (Bool-cases
        (preserves G (Dict.get s.per_upstream m.state_key) (governance_of m breaker))) [
          | inl stays ↦ inl (ground (arith, stays, f))
          | inr replaced ↦ elim (Bool-cases (str_eq m.state_key k)) [
            | inl here ↦
                let same : fresh ≡ a = ground (arith, replaced, here, put, f) in
                inr (
                  subst (λ (x : Arc (UpstreamState G)). IsNew G x.value x.value.governance) same
                    (build-IsNew G m breaker))
            | inr other ↦ inl (ground (arith, replaced, other, put, f))
          ]
        ]

  ensure_models-OldOrNew :
      (breaker : BreakerConfig) (ms : List ModelConfig) (s : StatefulState G)
      → OldOrNew s (ensure_models G breaker ms s)
  unfolding ensure_models
  ensure_models-OldOrNew breaker [] s k a f = inl f
  ensure_models-OldOrNew breaker (m ∷ ms) s k a f =
      elim (ensure_models-OldOrNew breaker ms (ensure_model G breaker m s) k a f) [
        | inl old ↦ ensure_model-OldOrNew breaker m s k a old
        | inr new ↦ inr new
      ]

  -- A configured model has a slot that limits, caps and trips as the model and the breaker settings say.
  pub record IsServed (s : StatefulState G) (config : RuntimeConfig) (m : ModelConfig)
      : Type 0 where
    pub slot : Arc (UpstreamState G)
    pub found : upstream G s m.state_key ≡ some slot
    pub serves : Serves G slot.value (governance_of m config.server.breaker)

  pub empty-AllServe : AllServe (empty G)
  unfolding upstream Dict.get
  empty-AllServe k a f = cc f

  ensure_for_config-OldOrNew :
      (s : StatefulState G) (config : RuntimeConfig) → OldOrNew s (ensure_for_config G s config)
  unfolding ensure_for_config
  ensure_for_config-OldOrNew s config =
      ensure_models-OldOrNew config.server.breaker (Dict.values config.models) s

  pub ensure_for_config-AllServe :
      (s : StatefulState G) (config : RuntimeConfig)
      → AllServe s
      → AllServe (ensure_for_config G s config)
  ensure_for_config-AllServe s config all k a f = elim (ensure_for_config-OldOrNew s config k a f) [
    | inl old ↦ all k a old
    | inr new ↦ IsNew-Serves G a.value a.value.governance new
  ]

  -- Where each slot does what its recorded governance says, it does so after `ensure_for_config` with a
  -- valid configuration too, and a slot that did not stand before is new. Every configured model then has a slot whose limiter has the quota of the
  -- model, whose semaphore has at most the permits of the model's cap, and whose breaker trips by the
  -- configured settings; a slot that had this governance before is the same slot, with what its limiter
  -- and its breaker have seen; and no other upstream's slot has changed.
  pub ensure_for_config-IsServed :
      (s : StatefulState G) (config : RuntimeConfig)
      → WellFormed config
      → AllServe s
      → Reconciled G s (ensure_for_config G s config) config
        × OldOrNew s (ensure_for_config G s config)
        × AllServe (ensure_for_config G s config)
        × ((j : String) (m : ModelConfig)
            → Dict.get config.models j ≡ some m
            → IsServed (ensure_for_config G s config) config m)
  ensure_for_config-IsServed s config w all =
      let r = ensure_for_config-Reconciled G s config w in
      let after = ensure_for_config-AllServe s config all in
      (
        r,
        ensure_for_config-OldOrNew s config,
        after,
        λ j m f.
            let here = r.slotted j m f in
            record {
              slot = here.slot;
              found = here.found;
              serves =
                  subst (Serves G here.slot.value) here.governed
                    (after m.state_key here.slot here.found);
            },
      )
