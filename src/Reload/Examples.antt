-- ===== src/Reload/Examples.antt =====
-- crates/moaray/src/reload.rs on a small configuration: a boot, a reload of the same, a collection.
use moaray.Base.{ap, All, [], ◌∷◌, ℕ, ◌≡◌, refl, sym, subst, none, ◌∙◌, String, Option, some, true}
use moaray.Base.Dict
use moaray.Base.Dict.{Dict}
use moaray.Base.Result.{Result, ok, ok-injective}
use moaray.Config.Validate.WellFormed.{WellFormed, validate-WellFormed}
use moaray.Config.Examples.{host, doc, model, config, doc-validate}
use moaray.Config.Runtime.{ModelConfig, RuntimeConfig}
use moaray.Limit.{Governor}
use moaray.Reload.{Gateway, boot, reload, boot_from}
use moaray.Reload.Protected.{IsSound}
use moaray.Reload.Outcome.{Reloads, Process-Reloads}
use moaray.Reload.Signed.{HasBarFree}
use moaray.Registry.{provider_signature, to_moa_recipe, to_strategy}
use moaray.Registry.Signature.{IsBarFree, SameFields, provider_signature-SameFields}
use moaray.Base.Text.Segments.{is_free, is_free_sound}
use moaray.Reload.Reachable.{boot_succeeds}
use moaray.Reload.FromText.{IsBarFreeText, Process, booted, reloaded, Process-IsSound}
use moaray.Reload.Arms.{ArmIsProtected, Process-IsWired, Process-ArmIsProtected}
use moaray.Moa.Recipe.{Recipe, concat_synthesize}
use moaray.Config.Defaults.{ConfigYaml}
use moaray.Config.Defaults.SpelledOut.{spell_out}
use moaray.Config.Load.{load_yaml, load_yaml-spelled}

-- A limiter that is its quota and always lets through.
abbrev governor : Governor
governor = record {
  Limiter = ℕ × ℕ;
  direct = λ rps burst. (rps, burst);
  check = λ l now. (l, true);
}

config-WellFormed : WellFormed config
config-WellFormed = validate-WellFormed host doc config doc-validate

abbrev env : ℕ → String → Option String
env n name = some "key"

model-IsBarFree : IsBarFree model
unfolding is_free
model-IsBarFree = record {
  base_url = is_free_sound b'|' "https://api.example.com/v1" refl;
  api_key_env = is_free_sound b'|' "OPENAI_KEY" refl;
}

config-HasBarFree : HasBarFree config
unfolding Dict.values
config-HasBarFree name m = Dict.get-values IsBarFree config.models name (model-IsBarFree, tt)

first :
    (g : Gateway governor) × (boot governor (env 0) config ≡ ok g)
    × (g.runtime.config ≡ config)
    × IsSound governor g
first = boot_succeeds governor (env 0) config config-WellFormed

abbrev from_str : String → Result (ConfigYaml ℕ) String
from_str yaml = ok (spell_out doc)

loads : (yaml : String) → load_yaml host from_str yaml ≡ ok config
loads yaml = load_yaml-spelled host from_str yaml doc refl ∙ doc-validate

text-BarFree : (yaml : String) → IsBarFreeText host from_str yaml
text-BarFree yaml c h = subst HasBarFree (ok-injective (sym (loads yaml) ∙ h)) config-HasBarFree

first_boots : boot_from governor (env 0) (load_yaml host from_str) "models:" ≡ ok first.0
unfolding boot_from
first_boots = rw (loads "models:", boot_from) first.1

-- A boot, a reload of a text, a reload of a missing file.
abbrev second : Gateway governor
second = (reload governor (env 1) (load_yaml host from_str) (some "models:") first.0).0

Process-IsSound_example :
    IsSound governor (reload governor (env 2) (load_yaml host from_str) none second).0
Process-IsSound_example =
    Process-IsSound host from_str governor env 2
      (reload governor (env 2) (load_yaml host from_str) none second).0
      (reloaded none tt (
        reloaded (some "models:") (text-BarFree "models:")
          (booted "models:" (text-BarFree "models:") first_boots)))

first-Process : Process host from_str governor env 0 first.0
first-Process = booted "models:" (text-BarFree "models:") first_boots

first-recipes :
    Dict.get first.0.runtime.orchestrator.recipes "best"
    ≡ Dict.get (Dict.map_values to_moa_recipe config.recipes) "best"
first-recipes =
    ap (λ d. Dict.get d "best")
      (Process-IsWired governor host from_str env 0 first.0 first-Process).recipes
    ∙ ap (λ (c : RuntimeConfig). Dict.get (Dict.map_values to_moa_recipe c.recipes) "best") first.2

abbrev best : Recipe
best = record {
  name = "best";
  proposers = "gpt-5.5" ∷ "gpt-5.5" ∷ [];
  aggregator = "gpt-5.5";
  strategy = concat_synthesize;
  arm_timeout_ms = 30000;
  quorum = 1;
}

best-moa : Dict.get (Dict.map_values to_moa_recipe config.recipes) "best" ≡ some best
unfolding Dict.get Dict.map_values to_moa_recipe to_strategy
best-moa = refl

Process-ArmIsProtected_example :
    All (ArmIsProtected governor first.0) ("gpt-5.5" ∷ "gpt-5.5" ∷ "gpt-5.5" ∷ [])
Process-ArmIsProtected_example =
    Process-ArmIsProtected governor host from_str env 0 first.0 first-Process "best" best
      (first-recipes ∙ best-moa)

-- The name of a model is not part of its signature.
abbrev renamed : ModelConfig
renamed = record model { name = "twin" }

provider_signature-SameFields_example :
    SameFields model renamed config.server.breaker config.server.breaker
unfolding provider_signature
provider_signature-SameFields_example =
    provider_signature-SameFields model renamed "key" "key" 4096 4096 config.server.retry
      config.server.retry config.server.breaker config.server.breaker model-IsBarFree
      (record { base_url = model-IsBarFree.base_url; api_key_env = model-IsBarFree.api_key_env })
      refl

Process-Reloads_example : Reloads governor host from_str (env 1) first.0 (some "models:")
Process-Reloads_example =
    Process-Reloads governor host from_str env 0 first.0 first-Process (env 1) (some "models:")
      (text-BarFree "models:")
