-- ===== src/Registry.antt =====
-- crates/moaray/src/registry.rs: from the configured models to governed providers. The HTTP adapters of
-- `moaray-providers` stand as the values they are built from.
pub mod Protected
pub mod Signature
use moaray.Base.{
  ℕ, suc, String, str_append, str_eq, Bool, true, false, Option, none, some, List, [], ◌∷◌,
  if◌then◌else◌, unwrap_or,
}
use moaray.Base.Dict
use moaray.Base.Dict.{Dict}
use moaray.Base.Text.{decimal}
use moaray.Base.Result.{Result, ok, err, ◌>>=◌}
use moaray.Config.Runtime.{
  BreakerConfig, RetryConfig, RateLimit, ProviderType, openai_compat, anthropic, ModelConfig,
  RecipeConfig, RuntimeConfig,
}
use moaray.Config.Runtime
use moaray.Moa.Recipe.{Recipe}
use moaray.Moa.Recipe
use moaray.Limit.{Governor}
use moaray.State.{Arc, UpstreamState, StatefulState, upstream}

-- The adapters, with the arguments of their constructors.
pub data Inner : Type 0 where
  openai_provider : String → String → String → Inner
  anthropic_provider : String → String → String → ℕ → Inner

-- The `Debug` forms that the signature uses.
pub debug_type : ProviderType → String
debug_type openai_compat = "OpenaiCompat"
debug_type anthropic = "Anthropic"

pub debug_number : Option ℕ → String
debug_number none = "None"
debug_number (some n) = str_append "Some(" (str_append (decimal n) ")")

pub show_bool : Bool → String
show_bool true = "true"
show_bool false = "false"

pub show_limit : Option RateLimit → String
show_limit none = "none"
show_limit (some r) = str_append (decimal r.rps) (str_append ":" (decimal r.burst))

-- The pieces of a `format!` one after the other.
pub concat : List String → String
concat [] = ""
concat (s ∷ r) = str_append s (concat r)

unfoldable pub provider_signature : ModelConfig → String → ℕ → RetryConfig → BreakerConfig → String
unfolding concat debug_type debug_number show_bool show_limit
provider_signature m api_key default_max_tokens retry breaker = concat (
    "pt="
    ∷ debug_type m.provider_type
    ∷ "|url="
    ∷ m.base_url
    ∷ "|keyenv="
    ∷ m.api_key_env
    ∷ "|key="
    ∷ api_key
    ∷ "|sid="
    ∷ m.state_key
    ∷ "|uid="
    ∷ m.upstream_id
    ∷ "|dmt="
    ∷ decimal default_max_tokens
    ∷ "|retry="
    ∷ show_bool retry.enabled
    ∷ ":"
    ∷ decimal retry.max_retries
    ∷ ":"
    ∷ decimal retry.backoff_ms
    ∷ "|rl="
    ∷ show_limit m.rate_limit
    ∷ "|mc="
    ∷ debug_number m.max_concurrency
    ∷ "|brk="
    ∷ decimal breaker.failure_threshold
    ∷ ":"
    ∷ decimal breaker.open_ms
    ∷ ":"
    ∷ decimal breaker.half_open_successes
    ∷ [])

unfoldable pub to_strategy : Runtime.Strategy → Recipe.Strategy
to_strategy Runtime.concat_synthesize = Recipe.concat_synthesize
to_strategy Runtime.quorum_judge = Recipe.quorum_judge

unfoldable pub to_moa_recipe : RecipeConfig → Recipe
to_moa_recipe r = record {
  name = r.name;
  proposers = r.proposers;
  aggregator = r.aggregator;
  strategy = to_strategy r.strategy;
  arm_timeout_ms = r.arm_timeout_ms;
  quorum = r.quorum;
}

unfoldable pub signature_in : RuntimeConfig → ModelConfig → String → String
signature_in config m api_key =
    provider_signature m api_key config.server.default_max_tokens config.server.retry
      config.server.breaker

module _ (G : Governor) where
  pub record GovernedProvider : Type 0 where
    pub inner : Inner
    pub state : Arc (UpstreamState G)
    pub retry : RetryConfig

  pub record BuiltProvider : Type 0 where
    pub provider : Arc GovernedProvider
    pub signature : String

  -- The resolver of the orchestrator is the table of the providers.
  pub record Orchestrator : Type 0 where
    pub resolver : Dict (Arc GovernedProvider)
    pub recipes : Dict Recipe

  -- `prev.and_then(..).filter(..)`.
  unfoldable pub reusable : Option (Dict BuiltProvider) → String → String → Option BuiltProvider
  reusable none name signature = none
  reusable (some prev) name signature = elim (Dict.get prev name) [
    | none ↦ none
    | some b ↦ if str_eq b.signature signature then some b else none
  ]

  unfoldable pub new_inner : ModelConfig → String → ℕ → Inner
  new_inner m api_key default_max_tokens = elim m.provider_type [
    | openai_compat ↦ openai_provider m.upstream_id m.base_url api_key
    | anthropic ↦ anthropic_provider m.upstream_id m.base_url api_key default_max_tokens
  ]

  -- A provider of its own, at the address `next`; a missing slot is refused.
  unfoldable pub new_provider :
      RuntimeConfig
      → StatefulState G
      → String
      → ModelConfig
      → String
      → ℕ
      → String
      → Result BuiltProvider String
  new_provider config stateful name m api_key next signature =
      elim (upstream G stateful m.state_key) [
        | none ↦ err name
        | some slot ↦ ok (record {
          provider = record {
            address = next;
            value = record {
              inner = new_inner m api_key config.server.default_max_tokens;
              state = slot;
              retry = config.server.retry;
            };
          };
          signature = signature;
        })
      ]

  -- The loop body of `build_providers_with`.
  unfoldable pub build_provider :
      RuntimeConfig
      → StatefulState G
      → (String → Option String)
      → Option (Dict BuiltProvider)
      → ℕ
      → String
      → ModelConfig
      → Result BuiltProvider String
  build_provider config stateful env prev next name m =
      let api_key = unwrap_or (env m.api_key_env) "" in
      let signature = signature_in config m api_key in
      elim (reusable prev name signature) [
        | some existing ↦ ok existing
        | none ↦ new_provider config stateful name m api_key next signature
      ]

  unfoldable pub build_loop :
      RuntimeConfig
      → StatefulState G
      → (String → Option String)
      → Option (Dict BuiltProvider)
      → ℕ
      → Dict ModelConfig
      → Dict BuiltProvider
      → Result (Dict BuiltProvider) String
  build_loop config stateful env prev next [] acc = ok acc
  build_loop config stateful env prev next ((name, m) ∷ ms) acc = do
    b ← build_provider config stateful env prev next name m
    build_loop config stateful env prev (suc next) ms (Dict.insert acc name b)

  unfoldable pub build_providers_with :
      RuntimeConfig
      → StatefulState G
      → (String → Option String)
      → Option (Dict BuiltProvider)
      → ℕ
      → Result (Dict BuiltProvider) String
  build_providers_with config stateful env prev next =
      build_loop config stateful env prev next config.models []

  unfoldable pub provider_of : BuiltProvider → Arc GovernedProvider
  provider_of b = b.provider

  unfoldable pub build_orchestrator_from_built : RuntimeConfig → Dict BuiltProvider → Orchestrator
  build_orchestrator_from_built config built = record {
    resolver = Dict.map_values provider_of built;
    recipes = Dict.map_values to_moa_recipe config.recipes;
  }
