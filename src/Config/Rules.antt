-- ===== src/Config/Rules.antt =====
-- crates/moaray-config/src/validate.rs: the checks of one limit, one secret, one recipe, and of the
-- models that share an upstream, with what validation takes from outside.
use moaray.Base.{
  ℕ, max, String, str_append, Bool, true, false, not, ◌&&◌, ◌||◌, Option, none, some, List, [], ◌∷◌,
  ltb, ◌==◌, if◌then◌else◌, unwrap_or, length, ◌≡◌,
}
use moaray.Base.Int.{ℤ, neg_part}
use moaray.Base.Dict
use moaray.Base.Dict.{Dict}
use moaray.Base.Result.{Result, ok, err, ◌>>=◌, ◌>>◌, fail_if}
use moaray.Config.Runtime.{
  RateLimit, UsageStoreConfig, ServerConfig, KeySecret, plain, sha256, ProviderType, openai_compat,
  anthropic, ModelConfig, RecipeConfig,
}
use moaray.Config.Schema.{
  UsageStoreDoc, RateLimitDoc, ServerDoc, RecipeDoc, ConfigError, key_secret_shape,
  unknown_recipe_model, empty_proposers, bad_quorum, bad_rate_limit,
  conflicting_upstream_governance,
}

-- What validation takes from outside: `f64`, `Url::parse`, the environment, and Unicode lowering.
pub record Host : Type 1 where
  pub Float : Type 0
  pub is_finite : Float → Bool
  -- `v < 0.0`
  pub is_negative : Float → Bool
  -- `(v * 1_000_000_000.0).round()`
  pub round_nano : Float → Float
  -- `nano > i64::MAX as f64`
  pub above_i64 : Float → Bool
  -- `nano as i64`, which saturates
  pub to_i64 : Float → ℤ
  pub show : Float → String
  -- the scheme of a URL that parses, or the reason why it does not
  pub url_scheme : String → Result String String
  pub env : String → Option String
  pub to_lowercase : String → String
  -- scaling, rounding and casting keep a non-negative price non-negative
  pub nano_nonneg :
      (v : Float)
      → is_finite v ≡ true
      → is_negative v ≡ false
      → neg_part (to_i64 (round_nano v)) ≡ 0

unfoldable pub as_str : ProviderType → String
as_str openai_compat = "openai-compat"
as_str anthropic = "anthropic"

unfoldable pub derive_state_key : ProviderType → String → String → String
unfolding as_str
derive_state_key provider_type base_url api_key_env =
    str_append (as_str provider_type)
      (str_append "|" (str_append base_url (str_append "|" api_key_env)))

unfoldable pub valid_rate_limit :
    String → String → Option RateLimitDoc → Result (Option RateLimit) ConfigError
valid_rate_limit scope name none = ok none
valid_rate_limit scope name (some rl) =
    if ltb rl.rps 1
    then err (bad_rate_limit scope name)
    else ok (some (record { rps = rl.rps; burst = max (unwrap_or rl.burst rl.rps) rl.rps }))

abbrev pub rate_limit_eq : Option RateLimit → Option RateLimit → Bool
rate_limit_eq none none = true
rate_limit_eq (some a) (some b) = (a.rps == b.rps) && (a.burst == b.burst)
rate_limit_eq _ _ = false

abbrev pub number_eq : Option ℕ → Option ℕ → Bool
number_eq none none = true
number_eq (some a) (some b) = a == b
number_eq _ _ = false

-- The loop over the models by name, with the first model seen of each upstream identity.
unfoldable pub check_governance :
    Dict ModelConfig → List ModelConfig → Result (Unit {0}) ConfigError
check_governance seen [] = ok tt
check_governance seen (m ∷ ms) =
    let clash = conflicting_upstream_governance m.upstream_id in
    let later = check_governance seen ms in
    let fresh = check_governance (Dict.insert seen m.state_key m) ms in
    elim (Dict.get seen m.state_key) [
      | none ↦ fresh
      | some first ↦ do
        fail_if (not (rate_limit_eq first.rate_limit m.rate_limit))
            (clash first.name m.name "rate_limit")
        fail_if (not (number_eq first.max_concurrency m.max_concurrency))
            (clash first.name m.name "max_concurrency")
        later
    ]

-- The references of one recipe, `known` being the configured model names.
unfoldable pub check_proposers :
    (String → Bool) → String → List String → Result (Unit {0}) ConfigError
check_proposers known recipe [] = ok tt
check_proposers known recipe (p ∷ ps) = do
  fail_if (not (known p)) (unknown_recipe_model recipe "proposer" p)
  check_proposers known recipe ps

abbrev pub is_nil {ℓ} : {A : Type ℓ} → List A → Bool
is_nil [] = true
is_nil (x ∷ xs) = false

unfoldable pub validate_recipe :
    (String → Bool) → String → RecipeDoc → Result RecipeConfig ConfigError
validate_recipe known name r = do
  fail_if (is_nil r.proposers) (empty_proposers name)
  check_proposers known name r.proposers
  fail_if (not (known r.aggregator)) (unknown_recipe_model name "aggregator" r.aggregator)
  fail_if (ltb r.quorum 1 || ltb (length r.proposers) r.quorum)
      (bad_quorum name r.quorum (length r.proposers))
  ok (record {
    name = name;
    proposers = r.proposers;
    aggregator = r.aggregator;
    strategy = r.strategy;
    arm_timeout_ms = r.arm_timeout_ms;
    quorum = r.quorum;
  })

unfoldable pub load_recipes :
    (String → Bool) → Dict RecipeConfig → Dict RecipeDoc → Result (Dict RecipeConfig) ConfigError
load_recipes known acc [] = ok acc
load_recipes known acc ((name, r) ∷ rs) = do
  c ← validate_recipe known name r
  load_recipes known (Dict.insert acc name c) rs

abbrev pub store_of : UsageStoreDoc → UsageStoreConfig
store_of u = record {
  path = u.path;
  channel_capacity = u.channel_capacity;
  batch_size = u.batch_size;
}

abbrev pub map_option : {A B : Type 0} → (A → B) → Option A → Option B
map_option f none = none
map_option f (some a) = some (f a)

unfoldable pub server_of : ServerDoc → ServerConfig
server_of s = record {
  bind = s.bind;
  port = s.port;
  request_timeout_ms = s.request_timeout_ms;
  max_body_bytes = s.max_body_bytes;
  shutdown_grace_ms = s.shutdown_grace_ms;
  default_max_tokens = s.default_max_tokens;
  moa_expose_metadata = s.moa_expose_metadata;
  breaker = record {
    failure_threshold = s.breaker.failure_threshold;
    open_ms = s.breaker.open_ms;
    half_open_successes = s.breaker.half_open_successes;
  };
  retry = record {
    enabled = s.retry.enabled;
    max_retries = s.retry.max_retries;
    backoff_ms = s.retry.backoff_ms;
  };
  usage_store = map_option store_of s.usage_store;
}

-- Where a key's secret comes from: exactly one of the two fields is set.
unfoldable pub secret_of :
    (String → Option String)
    → (String → String)
    → String
    → Option String
    → Option String
    → Result KeySecret ConfigError
secret_of env lower id (some var) none = ok (plain (unwrap_or (env var) ""))
secret_of env lower id none (some hash) = ok (sha256 (lower hash))
secret_of env lower id _ _ = err (key_secret_shape id)
