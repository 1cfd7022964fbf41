-- ===== src/Config/Runtime.antt =====
-- crates/moaray-config/src/runtime.rs: the validated runtime descriptor.
use moaray.Base.{ℕ, String, Bool, Option, List}
use moaray.Base.Int.{ℤ}
use moaray.Base.Dict.{Dict}

pub record BreakerConfig : Type 0 where
  pub failure_threshold : ℕ
  pub open_ms : ℕ
  pub half_open_successes : ℕ

pub record RetryConfig : Type 0 where
  pub enabled : Bool
  pub max_retries : ℕ
  pub backoff_ms : ℕ

pub record RateLimit : Type 0 where
  pub rps : ℕ
  pub burst : ℕ

pub record UsageStoreConfig : Type 0 where
  pub path : String
  pub channel_capacity : ℕ
  pub batch_size : ℕ

pub record ServerConfig : Type 0 where
  pub bind : String
  pub port : ℕ
  pub request_timeout_ms : ℕ
  pub max_body_bytes : ℕ
  pub shutdown_grace_ms : ℕ
  pub default_max_tokens : ℕ
  pub moa_expose_metadata : Bool
  pub breaker : BreakerConfig
  pub retry : RetryConfig
  pub usage_store : Option UsageStoreConfig

pub data KeySecret : Type 0 where
  plain : String → KeySecret
  sha256 : String → KeySecret

pub record KeyConfig : Type 0 where
  pub id : String
  pub secret : KeySecret
  pub allow_models : List String
  pub rate_limit : Option RateLimit

pub data ProviderType : Type 0 where
  openai_compat anthropic : ProviderType

pub data Strategy : Type 0 where
  concat_synthesize quorum_judge : Strategy

pub record ModelConfig : Type 0 where
  pub name : String
  pub provider_type : ProviderType
  pub base_url : String
  pub api_key_env : String
  pub state_key : String
  pub upstream_id : String
  pub rate_limit : Option RateLimit
  pub max_concurrency : Option ℕ
  pub price_prompt_nano_per_mtok : Option ℤ
  pub price_completion_nano_per_mtok : Option ℤ

pub record RecipeConfig : Type 0 where
  pub name : String
  pub proposers : List String
  pub aggregator : String
  pub strategy : Strategy
  pub arm_timeout_ms : ℕ
  pub quorum : ℕ

pub record RuntimeConfig : Type 0 where
  pub server : ServerConfig
  pub keys : List KeyConfig
  pub models : Dict ModelConfig
  pub recipes : Dict RecipeConfig
