-- ===== src/Reload/Protected.antt =====
-- crates/moaray/src/reload.rs: a reload of a valid configuration, and what it leaves alone.
use moaray.Base.{
  ℕ, String, ◌≡◌, refl, sym, ap, subst, ◌∙◌, Option, none, some, List, [], ◌∷◌, arith, Option-cases,
  inl, inr,
}
use moaray.Base.Dict
use moaray.Base.Dict.{Dict}
use moaray.Base.Result.{ok}
use moaray.Config.Runtime.{KeyConfig, ModelConfig, RuntimeConfig}
use moaray.Config.Validate.WellFormed.{WellFormed}
use moaray.Limit.{Governor}
use moaray.State.{
  Arc, UpstreamState, governance_of, StatefulState, upstream, ensure_for_config, install_key,
  install_keys, install_key_limiters, retain_key_limiters,
}
use moaray.State.Reconcile.{Reconciled, ensure_for_config-Reconciled}
use moaray.Registry.{BuiltProvider, reusable, signature_in, build_providers_with, provider_of}
use moaray.Registry.Protected.{Bound, Built, reusable-kept, build_providers_with-Built}
use moaray.Reload.{Gateway, ReloadOutcome, published_config, publish, apply}

-- Signatures tell upstreams and limits apart: models of equal signature, under the settings of two
-- configurations, have the same identity, the same limits and the same breaker settings.
pub record Tells (prev new : RuntimeConfig) : Type 0 where
  pub tell :
      (name : String) (a b : ModelConfig) (old_key new_key : String)
      → Dict.get prev.models name ≡ some a
      → Dict.get new.models name ≡ some b
      → signature_in prev a old_key ≡ signature_in new b new_key
      → (a.state_key ≡ b.state_key)
        × (governance_of a prev.server.breaker ≡ governance_of b new.server.breaker)

pub one_value : {A : Type 0} {o : Option A} {a b : A} → o ≡ some a → o ≡ some b → a ≡ b
one_value e f = ground (arith, e, f)

module _ (G : Governor) where
  -- A published model: its provider holds the slot that stands under the model's identity, and the slot
  -- has the model's limits.
  pub record IsProtected (g : Gateway G) (name : String) (m : ModelConfig) : Type 0 where
    pub built : BuiltProvider G
    pub kept : Dict.get g.last_built name ≡ some built
    pub published : Dict.get g.runtime.providers name ≡ some built.provider
    pub bound : Bound G g.runtime.config g.stateful m built
    pub governed :
        built.provider.value.state.value.governance
        ≡ governance_of m g.runtime.config.server.breaker

  pub record IsSound (g : Gateway G) : Type 0 where
    pub models :
        (name : String) (m : ModelConfig)
        → Dict.get g.runtime.config.models name ≡ some m
        → IsProtected g name m
    pub no_other :
        (name : String)
        → Dict.get g.runtime.config.models name ≡ none
        → Dict.get g.last_built name ≡ none

  pub install_keys-upstream :
      (ks : List KeyConfig) (s : StatefulState G) (n : ℕ) (k : String)
      → upstream G (install_keys G ks (s, n)).0 k ≡ upstream G s k
  unfolding install_keys install_key upstream
  install_keys-upstream [] s n k = refl
  install_keys-upstream (c ∷ ks) s n k = ground (
    arith,
    install_keys-upstream ks s n k,
    install_keys-upstream ks (install_key G c (s, n)).0 (install_key G c (s, n)).1 k,
  )

  reconcile_keys-upstream :
      (s : StatefulState G) (config : RuntimeConfig) (k : String)
      → upstream G (retain_key_limiters G (install_key_limiters G s config).0 config).0 k
        ≡ upstream G s k
  unfolding retain_key_limiters install_key_limiters upstream
  reconcile_keys-upstream s config k = install_keys-upstream config.keys s 0 k

  module _ (g : Gateway G) (new : RuntimeConfig) where
    -- What is signed as a model of the new configuration holds the slot that the model keeps.
    last_built-reusable :
        (s : StatefulState G)
        → IsSound g
        → Tells g.runtime.config new
        → Reconciled G g.stateful s new
        → (name : String) (m : ModelConfig) (api_key : String) (b : BuiltProvider G)
        → Dict.get new.models name ≡ some m
        → reusable G (some g.last_built) name (signature_in new m api_key) ≡ some b
        → upstream G s m.state_key ≡ some b.provider.value.state
    last_built-reusable s sound tells r name m api_key b f e =
        let (here, signed) = reusable-kept G g.last_built name (signature_in new m api_key) b e in
        elim (Option-cases (Dict.get g.runtime.config.models name)) [
          | inl gone ↦ cc (sound.no_other name gone, here)
          | inr (a, before) ↦
              let p = sound.models name a before in
              let same : p.built ≡ b = ground (arith, p.kept, here) in
              let told =
                tells.tell name a m p.bound.api_key api_key before f
                  (sym p.bound.signed ∙ ap (λ (x : BuiltProvider G). x.signature) same ∙ signed) in
              let slot : upstream G g.stateful m.state_key ≡ some p.built.provider.value.state =
                subst (λ k. upstream G g.stateful k ≡ some p.built.provider.value.state) told.0
                  p.bound.slot in
              let stays = r.kept name m p.built.provider.value.state f (p.governed ∙ told.1) slot in
              subst
                (λ (x : BuiltProvider G). upstream G s m.state_key ≡ some x.provider.value.state)
                same stays
        ]

    pub apply-Built :
        (env : String → Option String)
        → IsSound g
        → WellFormed new
        → Tells g.runtime.config new
        → (built : Dict (BuiltProvider G)) × (build_providers_with G new
              (ensure_for_config G g.stateful new)
              env
              (some g.last_built)
              g.next
            ≡ ok built)
          × Built G new
              (ensure_for_config G g.stateful new)
              env
              (some g.last_built)
              new.models
              []
              built
    apply-Built env sound w tells =
        let r = ensure_for_config-Reconciled G g.stateful new w in
        build_providers_with-Built G new (ensure_for_config G g.stateful new) env
          (some g.last_built) g.next w.models_distinct
          (λ name m f. let s = r.slotted name m f in (s.slot, s.found))
          (last_built-reusable (ensure_for_config G g.stateful new) sound tells r)

    publish-IsSound :
        (env : String → Option String) (s : StatefulState G) (built : Dict (BuiltProvider G))
        → Reconciled G g.stateful s new
        → Built G new s env (some g.last_built) new.models [] built
        → IsSound (publish G new g s built).0
    unfolding publish published_config signature_in provider_of Dict.get
    publish-IsSound env s built r v = record {
      models = λ name m f.
          let (b, here, w) = v.bound name m f in
          let slot = r.slotted name m f in
          record {
            built = b;
            kept = here;
            published = Dict.get-map_values (provider_of G) built name here;
            bound = record {
              slot = reconcile_keys-upstream s new m.state_key ∙ w.slot;
              api_key = w.api_key;
              signed = w.signed;
            };
            governed =
                ap (λ (a : Arc (UpstreamState G)). a.value.governance) (one_value w.slot slot.found)
                ∙ slot.governed;
          };
      no_other = λ name f. v.other name f;
    }

    -- A reload of a valid configuration into a sound gateway succeeds, provided the signatures tell its
    -- models from the running ones, and leaves a sound gateway: each of the new models is published
    -- with a provider that holds the slot of its upstream, and that slot has the model's limits.
    pub apply-IsSound :
        (env : String → Option String)
        → IsSound g
        → WellFormed new
        → Tells g.runtime.config new
        → IsSound (apply G env new g).0
          × ((outcome : ReloadOutcome) × ((apply G env new g).1 ≡ ok outcome))
    unfolding apply
    apply-IsSound env sound w tells =
        let (built, e, v) = apply-Built env sound w tells in
        let s = ensure_for_config G g.stateful new in
        let r = ensure_for_config-Reconciled G g.stateful new w in
        rw (e, apply) (publish-IsSound env s built r v, ((publish G new g s built).1, refl))
