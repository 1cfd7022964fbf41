-- ===== src/Config/Validate.antt =====
-- crates/moaray-config/src/validate.rs: from the document to the runtime descriptor.
pub mod Models
pub mod Governance
pub mod WellFormed
use moaray.Base.{
  ℕ, ◌≤◌, max, String, str_append, str_eq, Bool, true, false, not, ◌&&◌, ◌||◌, Option, none, some,
  List, [], ◌∷◌, ltb, ◌==◌, if◌then◌else◌, is_some, unwrap_or, length, ◌≡◌,
}
use moaray.Base.Int.{ℤ, neg_part}
use moaray.Base.Dict
use moaray.Base.Dict.{Dict}
use moaray.Base.Text.{trim_end_slashes}
use moaray.Base.Result.{Result, ok, err, ◌>>=◌, ◌>>◌, fail_if, ok_or}
use moaray.Config.Runtime.{
  BreakerConfig, RetryConfig, RateLimit, UsageStoreConfig, ServerConfig, KeySecret, plain, sha256,
  KeyConfig, ProviderType, openai_compat, anthropic, ModelConfig, RecipeConfig, RuntimeConfig,
}
use moaray.Config.Schema.{
  UsageStoreDoc, RateLimitDoc, ServerDoc, KeyDoc, RecipeDoc, ModelDoc, ConfigDoc, ConfigError,
  duplicate_model, empty_allowlist, key_secret_shape, bad_base_url_scheme, bad_base_url,
  unknown_recipe_model, empty_proposers, bad_quorum, no_models, bad_rate_limit, bad_price,
  conflicting_upstream_governance,
}
use moaray.Config.Rules.{
  Host, derive_state_key, valid_rate_limit, check_governance, load_recipes, server_of, secret_of,
  is_nil,
}

module _ (H : Host) where
  unfoldable pub valid_base_url : String → String → Result String ConfigError
  valid_base_url model raw = elim (H.url_scheme raw) [
    | err reason ↦ err (bad_base_url model reason)
    | ok scheme ↦
        if str_eq scheme "http" || str_eq scheme "https"
        then ok (trim_end_slashes raw)
        else err (bad_base_url_scheme model scheme)
  ]

  unfoldable pub valid_price : String → String → Option H.Float → Result (Option ℤ) ConfigError
  valid_price model field none = ok none
  valid_price model field (some v) =
      if not (H.is_finite v) || H.is_negative v
      then err (bad_price model field (H.show v))
      else if H.above_i64 (H.round_nano v)
      then err (bad_price model field (H.show v))
      else ok (some (H.to_i64 (H.round_nano v)))

  unfoldable pub validate_model : ModelDoc H.Float → Result ModelConfig ConfigError
  validate_model m = do
    base_url ← valid_base_url m.name m.base_url
    rate_limit ← valid_rate_limit "model" m.name m.rate_limit
    price_prompt ← valid_price m.name "price_prompt_per_mtok_usd" m.price_prompt_per_mtok_usd
    price_completion ←
        valid_price m.name "price_completion_per_mtok_usd" m.price_completion_per_mtok_usd
    ok (record {
      name = m.name;
      provider_type = m.provider_type;
      base_url = base_url;
      api_key_env = m.api_key_env;
      state_key = derive_state_key m.provider_type base_url m.api_key_env;
      upstream_id = unwrap_or m.upstream_id m.name;
      rate_limit = rate_limit;
      max_concurrency = m.max_concurrency;
      price_prompt_nano_per_mtok = price_prompt;
      price_completion_nano_per_mtok = price_completion;
    })

  unfoldable pub load_models :
      Dict ModelConfig → List (ModelDoc H.Float) → Result (Dict ModelConfig) ConfigError
  load_models acc [] = ok acc
  load_models acc (m ∷ ms) = do
    fail_if (is_some (Dict.get acc m.name)) (duplicate_model m.name)
    c ← validate_model m
    load_models (Dict.insert acc m.name c) ms

  unfoldable pub validate_key : KeyDoc → Result KeyConfig ConfigError
  validate_key k = do
    secret ← secret_of H.env H.to_lowercase k.id k.key_env k.key_sha256
    fail_if (is_nil k.allow_models) (empty_allowlist k.id)
    rate_limit ← valid_rate_limit "key" k.id k.rate_limit
    ok (record {
      id = k.id;
      secret = secret;
      allow_models = k.allow_models;
      rate_limit = rate_limit;
    })

  unfoldable pub load_keys : List KeyDoc → Result (List KeyConfig) ConfigError
  load_keys [] = ok []
  load_keys (k ∷ ks) = do c ← validate_key k; cs ← load_keys ks; ok (c ∷ cs)

  unfoldable pub validate : ConfigDoc H.Float → Result RuntimeConfig ConfigError
  validate doc = do
    fail_if (is_nil doc.models) no_models
    models ← load_models [] doc.models
    check_governance [] (Dict.values models)
    keys ← load_keys doc.keys
    recipes ← load_recipes (λ m. is_some (Dict.get models m)) [] doc.recipes
    ok (record { server = server_of doc.server; keys = keys; models = models; recipes = recipes })
