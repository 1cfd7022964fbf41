-- ===== src/Config/Schema.antt =====
-- crates/moaray-config/src/schema.rs and error.rs: the configuration document, each field with its value
-- or its default (Defaults). `Float` stands for `f64`.
use moaray.Base.{ℕ, String, Bool, Option, List}
use moaray.Base.Dict.{Dict}
use moaray.Config.Runtime.{ProviderType, Strategy}

pub record BreakerDoc : Type 0 where
  pub failure_threshold : ℕ
  pub open_ms : ℕ
  pub half_open_successes : ℕ

pub record RetryDoc : Type 0 where
  pub enabled : Bool
  pub max_retries : ℕ
  pub backoff_ms : ℕ

pub record UsageStoreDoc : Type 0 where
  pub path : String
  pub channel_capacity : ℕ
  pub batch_size : ℕ

pub record RateLimitDoc : Type 0 where
  pub rps : ℕ
  pub burst : Option ℕ

pub record ServerDoc : Type 0 where
  pub bind : String
  pub port : ℕ
  pub request_timeout_ms : ℕ
  pub max_body_bytes : ℕ
  pub shutdown_grace_ms : ℕ
  pub default_max_tokens : ℕ
  pub moa_expose_metadata : Bool
  pub breaker : BreakerDoc
  pub retry : RetryDoc
  pub usage_store : Option UsageStoreDoc

pub record KeyDoc : Type 0 where
  pub id : String
  pub key_env : Option String
  pub key_sha256 : Option String
  pub allow_models : List String
  pub rate_limit : Option RateLimitDoc

pub record RecipeDoc : Type 0 where
  pub proposers : List String
  pub aggregator : String
  pub strategy : Strategy
  pub arm_timeout_ms : ℕ
  pub quorum : ℕ

pub record ModelDoc (Float : Type 0) : Type 0 where
  pub name : String
  pub provider_type : ProviderType
  pub base_url : String
  pub api_key_env : String
  pub upstream_id : Option String
  pub rate_limit : Option RateLimitDoc
  pub max_concurrency : Option ℕ
  pub price_prompt_per_mtok_usd : Option Float
  pub price_completion_per_mtok_usd : Option Float

pub record ConfigDoc (Float : Type 0) : Type 0 where
  pub server : ServerDoc
  pub keys : List KeyDoc
  pub models : List (ModelDoc Float)
  pub recipes : Dict RecipeDoc

pub data ConfigError : Type 0 where
  parse duplicate_model empty_allowlist key_secret_shape : String → ConfigError
  bad_base_url_scheme bad_base_url : String → String → ConfigError
  unknown_recipe_model : String → String → String → ConfigError
  empty_proposers : String → ConfigError
  bad_quorum : String → ℕ → ℕ → ConfigError
  no_models : ConfigError
  bad_rate_limit : String → String → ConfigError
  bad_price : String → String → String → ConfigError
  conflicting_upstream_governance : String → String → String → String → ConfigError
