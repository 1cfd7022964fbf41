-- ===== src/State/Reconcile.antt =====
-- crates/moaray/src/runtime.rs: what a reload does to the slots of the upstreams.
use moaray.Base.{
  String, str_eq, str_eq_iff, str_eq_refl, ◌≡◌, refl, sym, ap, subst, ◌∙◌, Bool, true, false, none,
  some, List, [], ◌∷◌, any, All, All-map, if◌then◌else◌, arith, Option-cases, inl, inr, Bool-cases,
}
use moaray.Base.Dict
use moaray.Base.Dict.{Dict}
use moaray.Config.Runtime.{BreakerConfig, ModelConfig, RuntimeConfig}
use moaray.Config.Validate.WellFormed.{WellFormed}
use moaray.Config.Validate.Governance.{SameLimits}
use moaray.Limit.{Governor}
use moaray.State.{
  Arc, UpstreamGovernance, governance_of, governance_eq, UpstreamState, build, StatefulState,
  ensure_model, ensure_models, ensure_for_config, live_upstream, retain_for_config, upstream,
}

governance_eq_sound : (a b : UpstreamGovernance) → governance_eq a b ≡ true → a ≡ b
unfolding governance_eq
governance_eq_sound a b h = ground arith

governance_eq_refl : (a : UpstreamGovernance) → governance_eq a a ≡ true
unfolding governance_eq
governance_eq_refl a = ground arith

abbrev sharing : List ModelConfig → String → Bool
sharing ms k = any (λ (m : ModelConfig). str_eq m.state_key k) ms

-- The models that share the identity `k` have the governance `g`.
abbrev AllGoverned : BreakerConfig → String → UpstreamGovernance → List ModelConfig → Type 0
AllGoverned breaker k g ms =
    All (λ (m : ModelConfig). m.state_key ≡ k → governance_of m breaker ≡ g) ms

module _ (G : Governor) where
  -- A slot under `k` with governance `g`.
  pub record Slotted (s : StatefulState G) (k : String) (g : UpstreamGovernance) : Type 0 where
    pub slot : Arc (UpstreamState G)
    pub found : upstream G s k ≡ some slot
    pub governed : slot.value.governance ≡ g

  module _ (breaker : BreakerConfig) (m : ModelConfig) (s : StatefulState G) (k : String) where
    abbrev fresh : Arc (UpstreamState G)
    fresh = record { address = s.next; value = build G m breaker }

    ensure_model-keeps :
        (a : Arc (UpstreamState G))
        → (m.state_key ≡ k → governance_of m breaker ≡ a.value.governance)
        → upstream G s k ≡ some a
        → upstream G (ensure_model G breaker m s) k ≡ some a
    unfolding ensure_model upstream
    ensure_model-keeps a same f = ground (
      arith,
      Dict.get-insert s.per_upstream m.state_key k fresh,
      str_eq_iff m.state_key k,
      governance_eq_refl a.value.governance,
      same,
    )

    ensure_model-leaves :
        str_eq m.state_key k ≡ false → upstream G (ensure_model G breaker m s) k ≡ upstream G s k
    unfolding ensure_model upstream
    ensure_model-leaves e = ground (arith, Dict.get-insert s.per_upstream m.state_key k fresh)

    ensure_model-Slotted :
        m.state_key ≡ k → Slotted (ensure_model G breaker m s) k (governance_of m breaker)
    unfolding ensure_model upstream build
    ensure_model-Slotted e = elim (Option-cases (Dict.get s.per_upstream m.state_key)) [
      | inl gone ↦ record {
        slot = fresh;
        found = ground (
          arith,
          Dict.get-insert s.per_upstream m.state_key k fresh,
          str_eq_iff m.state_key k,
          gone,
        );
        governed = refl;
      }
      | inr (a, here) ↦
          elim (Bool-cases (governance_eq a.value.governance (governance_of m breaker))) [
            | inl same ↦ record {
              slot = a;
              found = ground (arith, same, here, ap (Dict.get s.per_upstream) e);
              governed = governance_eq_sound a.value.governance (governance_of m breaker) same;
            }
            | inr changed ↦ record {
              slot = fresh;
              found = ground (
                arith,
                Dict.get-insert s.per_upstream m.state_key k fresh,
                str_eq_iff m.state_key k,
                changed,
                here,
              );
              governed = refl;
            }
          ]
    ]

  ensure_models-keeps :
      (breaker : BreakerConfig) (k : String) (a : Arc (UpstreamState G)) (ms : List ModelConfig)
      (s : StatefulState G)
      → AllGoverned breaker k a.value.governance ms
      → upstream G s k ≡ some a
      → upstream G (ensure_models G breaker ms s) k ≡ some a
  unfolding ensure_models
  ensure_models-keeps breaker k a [] s v f = f
  ensure_models-keeps breaker k a (m ∷ ms) s v f =
      ensure_models-keeps breaker k a ms (ensure_model G breaker m s) v.1
        (ensure_model-keeps breaker m s k a v.0 f)

  ensure_models-Slotted :
      (breaker : BreakerConfig) (k : String) (g : UpstreamGovernance) (ms : List ModelConfig)
      (s : StatefulState G)
      → AllGoverned breaker k g ms
      → sharing ms k ≡ true
      → Slotted (ensure_models G breaker ms s) k g
  unfolding ensure_models
  ensure_models-Slotted breaker k g [] s v h = cc h
  ensure_models-Slotted breaker k g (m ∷ ms) s v h = elim (Bool-cases (str_eq m.state_key k)) [
    | inl e ↦
        let same = (str_eq_iff m.state_key k).0 e in
        let now = ensure_model-Slotted breaker m s k same in
        let right : now.slot.value.governance ≡ g = now.governed ∙ v.0 same in
        record {
          slot = now.slot;
          found =
              ensure_models-keeps breaker k now.slot ms (ensure_model G breaker m s)
                (subst (λ x. AllGoverned breaker k x ms) (sym right) v.1) now.found;
          governed = right;
        }
    | inr e ↦
        ensure_models-Slotted breaker k g ms (ensure_model G breaker m s) v.1 (ground (arith, h, e))
  ]

  ensure_models-leaves :
      (breaker : BreakerConfig) (k : String) (ms : List ModelConfig) (s : StatefulState G)
      → sharing ms k ≡ false
      → upstream G (ensure_models G breaker ms s) k ≡ upstream G s k
  unfolding ensure_models
  ensure_models-leaves breaker k [] s h = refl
  ensure_models-leaves breaker k (m ∷ ms) s h =
      ensure_models-leaves breaker k ms (ensure_model G breaker m s) (ground (arith, h))
      ∙ ensure_model-leaves breaker m s k (ground (arith, h))

  -- What `ensure_for_config` promises of the slots before and after.
  pub record Reconciled (s after : StatefulState G) (config : RuntimeConfig) : Type 0 where
    pub slotted :
        (j : String) (m : ModelConfig)
        → Dict.get config.models j ≡ some m
        → Slotted after m.state_key (governance_of m config.server.breaker)
    pub kept :
        (j : String) (m : ModelConfig) (a : Arc (UpstreamState G))
        → Dict.get config.models j ≡ some m
        → a.value.governance ≡ governance_of m config.server.breaker
        → upstream G s m.state_key ≡ some a
        → upstream G after m.state_key ≡ some a
    pub others : (k : String) → live_upstream config k ≡ false → upstream G after k ≡ upstream G s k

  WellFormed-AllGoverned :
      (config : RuntimeConfig) (j : String) (m : ModelConfig)
      → WellFormed config
      → Dict.get config.models j ≡ some m
      → AllGoverned config.server.breaker m.state_key
          (governance_of m config.server.breaker)
          (Dict.values config.models)
  WellFormed-AllGoverned config j m w f =
      All-map {P = λ b. m.state_key ≡ b.state_key → SameLimits m b}
        {Q = λ b.
          b.state_key ≡ m.state_key
          → governance_of b config.server.breaker ≡ governance_of m config.server.breaker}
        (λ b h e. let same = h (sym e) in cc (same.rate, same.concurrency))
        (Dict.values config.models) (w.one_governance j m f)

  -- After `ensure_for_config` with a valid configuration every configured model has a slot that is
  -- recorded with its limits and breaker settings; a slot that was before is the same slot; and no other
  -- upstream's slot has changed.
  pub ensure_for_config-Reconciled :
      (s : StatefulState G) (config : RuntimeConfig)
      → WellFormed config
      → Reconciled s (ensure_for_config G s config) config
  unfolding ensure_for_config live_upstream
  ensure_for_config-Reconciled s config w =
      let breaker = config.server.breaker in
      let ms = Dict.values config.models in
      record {
        slotted = λ j m f.
            ensure_models-Slotted breaker m.state_key (governance_of m breaker) ms s
              (WellFormed-AllGoverned config j m w f)
              (Dict.any-values (λ (x : ModelConfig). str_eq x.state_key m.state_key) config.models j
                f (str_eq_refl m.state_key));
        kept = λ j m a f e. ensure_models-keeps breaker m.state_key a ms s (
            subst (λ g. AllGoverned breaker m.state_key g ms) (sym e)
              (WellFormed-AllGoverned config j m w f));
        others = λ k. ensure_models-leaves breaker k ms s;
      }

  -- The collection leaves exactly the slots of the upstreams that the configuration names.
  pub retain_for_config-exact :
      (s : StatefulState G) (config : RuntimeConfig) (k : String)
      → upstream G (retain_for_config G s config).0 k
        ≡ (if live_upstream config k then upstream G s k else none)
  unfolding retain_for_config upstream
  retain_for_config-exact s config k = Dict.get-retain (live_upstream config) s.per_upstream k
