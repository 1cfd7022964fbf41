-- ===== src/Config/Defaults.antt =====
-- crates/moaray-config/src/schema.rs: the values that `#[serde(default)]` gives to the fields that a
-- configuration file leaves out. A `...Yaml` record is what stands in the file, none where nothing does.
pub mod SpelledOut
use moaray.Base.{
  ℕ, ◌*◌, String, Bool, false, Option, none, some, List, [], ◌∷◌, unwrap_or, ◌≡◌, refl,
}
use moaray.Base.Dict.{Dict}
use moaray.Config.Runtime.{Strategy}
use moaray.Config.Schema.{
  BreakerDoc, RetryDoc, UsageStoreDoc, ServerDoc, KeyDoc, RecipeDoc, ModelDoc, ConfigDoc,
}

pub record BreakerYaml : Type 0 where
  pub failure_threshold : Option ℕ
  pub open_ms : Option ℕ
  pub half_open_successes : Option ℕ

pub record RetryYaml : Type 0 where
  pub enabled : Option Bool
  pub max_retries : Option ℕ
  pub backoff_ms : Option ℕ

pub record UsageStoreYaml : Type 0 where
  pub path : String
  pub channel_capacity : Option ℕ
  pub batch_size : Option ℕ

pub record ServerYaml : Type 0 where
  pub bind : Option String
  pub port : Option ℕ
  pub request_timeout_ms : Option ℕ
  pub max_body_bytes : Option ℕ
  pub shutdown_grace_ms : Option ℕ
  pub default_max_tokens : Option ℕ
  pub moa_expose_metadata : Option Bool
  pub breaker : Option BreakerYaml
  pub retry : Option RetryYaml
  pub usage_store : Option UsageStoreYaml

pub record RecipeYaml : Type 0 where
  pub proposers : List String
  pub aggregator : String
  pub strategy : Strategy
  pub arm_timeout_ms : Option ℕ
  pub quorum : ℕ

pub record ConfigYaml (Float : Type 0) : Type 0 where
  pub server : Option ServerYaml
  pub keys : List KeyDoc
  pub models : List (ModelDoc Float)
  pub recipes : Option (Dict RecipeYaml)

abbrev default_channel_capacity : ℕ
default_channel_capacity = 8192

abbrev default_batch_size : ℕ
default_batch_size = 256

abbrev default_breaker_failure_threshold : ℕ
default_breaker_failure_threshold = 5

abbrev default_breaker_open_ms : ℕ
default_breaker_open_ms = 30000

abbrev default_breaker_half_open_successes : ℕ
default_breaker_half_open_successes = 1

abbrev default_retry_max : ℕ
default_retry_max = 2

abbrev default_retry_backoff_ms : ℕ
default_retry_backoff_ms = 100

abbrev default_port : ℕ
default_port = 8080

abbrev default_request_timeout_ms : ℕ
default_request_timeout_ms = 120000

abbrev default_max_body_bytes : ℕ
default_max_body_bytes = 1024 * 1024

abbrev default_shutdown_grace_ms : ℕ
default_shutdown_grace_ms = 15000

abbrev default_max_tokens : ℕ
default_max_tokens = 4096

abbrev default_arm_timeout_ms : ℕ
default_arm_timeout_ms = 60000

abbrev default_bind : String
default_bind = "0.0.0.0"

-- `Default for BreakerDoc`, `Default for RetryDoc` and `Default for ServerDoc`: a section left out.
abbrev default_breaker : BreakerDoc
default_breaker = record {
  failure_threshold = default_breaker_failure_threshold;
  open_ms = default_breaker_open_ms;
  half_open_successes = default_breaker_half_open_successes;
}

abbrev default_retry : RetryDoc
default_retry = record {
  enabled = false;
  max_retries = default_retry_max;
  backoff_ms = default_retry_backoff_ms;
}

abbrev default_server : ServerDoc
default_server = record {
  bind = default_bind;
  port = default_port;
  request_timeout_ms = default_request_timeout_ms;
  max_body_bytes = default_max_body_bytes;
  shutdown_grace_ms = default_shutdown_grace_ms;
  default_max_tokens = default_max_tokens;
  moa_expose_metadata = false;
  breaker = default_breaker;
  retry = default_retry;
  usage_store = none;
}

-- A section that is there, with a default for each field it leaves out.
unfoldable fill_breaker : Option BreakerYaml → BreakerDoc
fill_breaker none = default_breaker
fill_breaker (some b) = record {
  failure_threshold = unwrap_or b.failure_threshold default_breaker_failure_threshold;
  open_ms = unwrap_or b.open_ms default_breaker_open_ms;
  half_open_successes = unwrap_or b.half_open_successes default_breaker_half_open_successes;
}

unfoldable fill_retry : Option RetryYaml → RetryDoc
fill_retry none = default_retry
fill_retry (some r) = record {
  enabled = unwrap_or r.enabled false;
  max_retries = unwrap_or r.max_retries default_retry_max;
  backoff_ms = unwrap_or r.backoff_ms default_retry_backoff_ms;
}

unfoldable fill_usage_store : Option UsageStoreYaml → Option UsageStoreDoc
fill_usage_store none = none
fill_usage_store (some u) = some (record {
  path = u.path;
  channel_capacity = unwrap_or u.channel_capacity default_channel_capacity;
  batch_size = unwrap_or u.batch_size default_batch_size;
})

unfoldable fill_server : Option ServerYaml → ServerDoc
fill_server none = default_server
fill_server (some s) = record {
  bind = unwrap_or s.bind default_bind;
  port = unwrap_or s.port default_port;
  request_timeout_ms = unwrap_or s.request_timeout_ms default_request_timeout_ms;
  max_body_bytes = unwrap_or s.max_body_bytes default_max_body_bytes;
  shutdown_grace_ms = unwrap_or s.shutdown_grace_ms default_shutdown_grace_ms;
  default_max_tokens = unwrap_or s.default_max_tokens default_max_tokens;
  moa_expose_metadata = unwrap_or s.moa_expose_metadata false;
  breaker = fill_breaker s.breaker;
  retry = fill_retry s.retry;
  usage_store = fill_usage_store s.usage_store;
}

abbrev fill_recipe : RecipeYaml → RecipeDoc
fill_recipe r = record {
  proposers = r.proposers;
  aggregator = r.aggregator;
  strategy = r.strategy;
  arm_timeout_ms = unwrap_or r.arm_timeout_ms default_arm_timeout_ms;
  quorum = r.quorum;
}

unfoldable fill_recipes : Dict RecipeYaml → Dict RecipeDoc
fill_recipes [] = []
fill_recipes ((name, r) ∷ rs) = (name, fill_recipe r) ∷ fill_recipes rs

pub fill : {F : Type 0} → ConfigYaml F → ConfigDoc F
fill y = record {
  server = fill_server y.server;
  keys = y.keys;
  models = y.models;
  recipes = fill_recipes (unwrap_or y.recipes []);
}

-- A section whose every field is left out is a section left out.
fill_breaker-empty :
    fill_breaker
      (some (record { failure_threshold = none; open_ms = none; half_open_successes = none }))
    ≡ fill_breaker none
unfolding fill_breaker
fill_breaker-empty = refl

fill_retry-empty :
    fill_retry (some (record { enabled = none; max_retries = none; backoff_ms = none }))
    ≡ fill_retry none
unfolding fill_retry
fill_retry-empty = refl

abbrev empty_server : ServerYaml
empty_server = record {
  bind = none;
  port = none;
  request_timeout_ms = none;
  max_body_bytes = none;
  shutdown_grace_ms = none;
  default_max_tokens = none;
  moa_expose_metadata = none;
  breaker = none;
  retry = none;
  usage_store = none;
}

fill_server-empty : fill_server (some empty_server) ≡ fill_server none
unfolding fill_server fill_breaker fill_retry fill_usage_store
fill_server-empty = refl
