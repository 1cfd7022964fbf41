-- ===== src/Reload/Arms.antt =====
-- crates/moaray/src/reload.rs and registry.rs: the orchestrator that is published with the providers, and
-- the arms of its recipes.
use moaray.Base.{
  ℕ, String, ◌≡◌, refl, ap, subst, ◌∙◌, Option, none, some, ◌∷◌, arith, All, All-map, Option-cases,
  inl, inr, true, ltb, Bool-cases, sym,
}
use moaray.Base.Dict
use moaray.Base.Result.{Result, ok, Result-cases, passed, ok-injective}
use moaray.Config.Runtime.{ModelConfig, RuntimeConfig}
use moaray.Config.Defaults.{ConfigYaml}
use moaray.Config.Rules.{Host}
use moaray.Config.Load.{load_yaml}
use moaray.Config.Validate.Models.{RecipeIsValid}
use moaray.Config.Validate.WellFormed.{WellFormed, known_in}
use moaray.Limit.{Governor}
use moaray.Moa.Recipe.{Recipe}
use moaray.State.{Arc, upstream, governance_of, ensure_for_config, from_config}
use moaray.Registry.{
  GovernedProvider, to_moa_recipe, build_providers_with, build_orchestrator_from_built,
}
use moaray.Reload.{
  Gateway, boot, started, publish, published_config, apply, reload, boot_from, collect,
}
use moaray.Reload.Protected.{IsSound}
use moaray.Reload.FromText.{
  Process, booted, reloaded, collected, Process-IsSound, load_yaml-WellFormed,
}

module _ (G : Governor) where
  -- The orchestrator resolves a model to the provider that a request for the model itself gets, and its
  -- recipes are the published ones, whose models are all configured.
  pub record IsWired (g : Gateway G) : Type 0 where
    shared : g.runtime.orchestrator.resolver ≡ g.runtime.providers
    pub recipes :
        g.runtime.orchestrator.recipes ≡ Dict.map_values to_moa_recipe g.runtime.config.recipes
    known : Dict.Entries (RecipeIsValid (known_in g.runtime.config)) g.runtime.config.recipes

  started-IsWired :
      (env : String → Option String) (config : RuntimeConfig) (g : Gateway G)
      → WellFormed config
      → boot G env config ≡ ok g
      → IsWired g
  unfolding boot started build_orchestrator_from_built
  started-IsWired env config g w e =
      let p = passed _ (build_providers_with G config (from_config G config) env none 0) e in
      subst IsWired (ok-injective p.second)
        (record { shared = refl; recipes = refl; known = w.recipes_valid })

  apply-IsWired :
      (env : String → Option String) (new : RuntimeConfig) (g : Gateway G)
      → WellFormed new
      → IsWired g
      → IsWired (apply G env new g).0
  unfolding apply publish published_config build_orchestrator_from_built
  apply-IsWired env new g w h =
      elim (Result-cases (
        build_providers_with G new (ensure_for_config G g.stateful new) env (some g.last_built)
          g.next)) [
            | inr (s, bad) ↦
                rw (bad, apply) (record { shared = h.shared; recipes = h.recipes; known = h.known })
            | inl (built, good) ↦
                rw (good, apply) (record { shared = refl; recipes = refl; known = w.recipes_valid })
          ]

  collect-IsWired : (g : Gateway G) → IsWired g → IsWired (collect G g)
  unfolding collect
  collect-IsWired g h = elim (Bool-cases (ltb 0 g.waiting)) [
    | inl due ↦ rw due (record { shared = h.shared; recipes = h.recipes; known = h.known })
    | inr early ↦ rw early h
  ]

  -- An arm: a configured model, for which the orchestrator has the provider that a request for the model
  -- gets, and that provider holds the slot of the model's upstream, with the model's limits.
  pub record ArmIsProtected (g : Gateway G) (arm : String) : Type 0 where
    pub model : ModelConfig
    pub configured : Dict.get g.runtime.config.models arm ≡ some model
    pub provider : Arc (GovernedProvider G)
    pub resolved : Dict.get g.runtime.orchestrator.resolver arm ≡ some provider
    pub passthrough : Dict.get g.runtime.providers arm ≡ some provider
    pub slot : upstream G g.stateful model.state_key ≡ some provider.value.state
    pub governed :
        provider.value.state.value.governance ≡ governance_of model g.runtime.config.server.breaker

  known-IsProtected :
      (g : Gateway G)
      → IsSound G g
      → IsWired g
      → (arm : String) → known_in g.runtime.config arm ≡ true
      → ArmIsProtected g arm
  known-IsProtected g sound wired arm k =
      elim (Option-cases (Dict.get g.runtime.config.models arm)) [
        | inl gone ↦ ground (arith, k, gone)
        | inr (m, here) ↦
            let p = sound.models arm m here in
            record {
              model = m;
              configured = here;
              provider = p.built.provider;
              resolved = ap (λ d. Dict.get d arm) wired.shared ∙ p.published;
              passthrough = p.published;
              slot = p.bound.slot;
              governed = p.governed;
            }
      ]

  recipe-IsProtected :
      (g : Gateway G)
      → IsSound G g
      → IsWired g
      → (name : String) (r : Recipe) → Dict.get g.runtime.orchestrator.recipes name ≡ some r
      → All (ArmIsProtected g) (r.aggregator ∷ r.proposers)
  unfolding to_moa_recipe
  recipe-IsProtected g sound wired name r e =
      let (c, here, same) =
        Dict.get-map_values-some to_moa_recipe g.runtime.config.recipes name r
          (ap (λ d. Dict.get d name) (sym wired.recipes) ∙ e) in
      let v =
        Dict.get-Entries (RecipeIsValid (known_in g.runtime.config)) g.runtime.config.recipes name
          wired.known here in
      subst (λ (x : Recipe). All (ArmIsProtected g) (x.aggregator ∷ x.proposers)) same
        (
          known-IsProtected g sound wired c.aggregator v.aggregator_known,
          All-map (λ arm k. known-IsProtected g sound wired arm k) c.proposers v.proposers_known,
        )

  module _ (H : Host) (from_str : String → Result (ConfigYaml H.Float) String) where
    boot_from-IsWired :
        (env : String → Option String) (yaml : String) (g : Gateway G)
        → boot_from G env (load_yaml H from_str) yaml ≡ ok g
        → IsWired g
    unfolding boot_from
    boot_from-IsWired env yaml g h = elim (Result-cases (load_yaml H from_str yaml)) [
      | inr (e, bad) ↦ ground (arith, bad, h)
      | inl (c, good) ↦
          started-IsWired env c g (load_yaml-WellFormed H from_str yaml good)
            (ground (arith, good, h))
    ]

    reload-IsWired :
        (env : String → Option String) (file : Option String) (g : Gateway G)
        → IsWired g
        → IsWired (reload G env (load_yaml H from_str) file g).0
    unfolding reload
    reload-IsWired env none g h = h
    reload-IsWired env (some yaml) g h = elim (Result-cases (load_yaml H from_str yaml)) [
      | inr (e, bad) ↦ rw (bad, reload) h
      | inl (c, good) ↦
          rw (good, reload) (apply-IsWired env c g (load_yaml-WellFormed H from_str yaml good) h)
    ]

    pub Process-IsWired :
        (env : ℕ → String → Option String) (n : ℕ) (g : Gateway G)
        → Process H from_str G env n g
        → IsWired g
    Process-IsWired env n g (booted yaml free e) = boot_from-IsWired (env 0) yaml g e
    Process-IsWired env n _ (reloaded {n = k} {g} file free r) =
        reload-IsWired (env n) file g (Process-IsWired env k g r)
    Process-IsWired env n _ (collected {n = k} {g} r) =
        collect-IsWired g (Process-IsWired env k g r)

    -- Take a process that boots from a text and then, in any order and number, reloads whatever stands
    -- in its configuration file and collects orphans, where no text that loads has a bar in a URL or in
    -- the name of a key's variable. In every gateway on its way the aggregator and each proposer of a
    -- published recipe is a configured model, which the orchestrator resolves to the very provider that
    -- a request for the model gets; the provider holds the slot standing under the model's upstream,
    -- and that slot was built with the model's limits and the published breaker settings.
    pub Process-ArmIsProtected :
        (env : ℕ → String → Option String) (n : ℕ) (g : Gateway G)
        → Process H from_str G env n g
        → (name : String) (r : Recipe) → Dict.get g.runtime.orchestrator.recipes name ≡ some r
        → All (ArmIsProtected g) (r.aggregator ∷ r.proposers)
    Process-ArmIsProtected env n g p =
        recipe-IsProtected g (Process-IsSound H from_str G env n g p) (Process-IsWired env n g p)
