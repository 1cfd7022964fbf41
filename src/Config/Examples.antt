-- ===== src/Config/Examples.antt =====
-- crates/moaray-config on a small document: one model, one key and one recipe.
use moaray.Base.{ℕ, ◌*◌, ◌≡◌, refl, ◌∷◌, [], true, false, none, some, leb}
use moaray.Base.Int.{pos}
use moaray.Base.Dict
use moaray.Base.Dict.{Dict}
use moaray.Base.Text.{decimal, trim_end_slashes}
use moaray.Base.Result.{ok}
use moaray.Config.Runtime.{ModelConfig, RuntimeConfig, openai_compat, concat_synthesize, plain}
use moaray.Config.Schema.{ConfigDoc, ModelDoc}
use moaray.Config.Rules.{
  Host, derive_state_key, valid_rate_limit, check_governance, check_proposers, validate_recipe,
  load_recipes, server_of, secret_of,
}
use moaray.Config.Validate.{
  valid_base_url, valid_price, validate_model, load_models, validate_key, load_keys, validate,
}
use moaray.Config.Validate.WellFormed.{WellFormed, validate-WellFormed}

-- Prices in whole dollars; every URL is taken for an https one.
abbrev pub host : Host
host = record {
  Float = ℕ;
  is_finite = λ v. true;
  is_negative = λ v. false;
  round_nano = λ v. v * 1000000000;
  above_i64 = λ v. leb (9223372036854775809) v;
  to_i64 = pos;
  show = decimal;
  url_scheme = λ raw. ok "https";
  env = λ name. some "s3cret";
  to_lowercase = λ s. s;
  nano_nonneg = λ v f n. refl;
}

abbrev model_doc : ModelDoc ℕ
model_doc = record {
  name = "gpt-5.5";
  provider_type = openai_compat;
  base_url = "https://api.example.com/v1/";
  api_key_env = "OPENAI_KEY";
  upstream_id = none;
  rate_limit = some (record { rps = 5; burst = some 2 });
  max_concurrency = some 4;
  price_prompt_per_mtok_usd = some 3;
  price_completion_per_mtok_usd = none;
}

abbrev pub doc : ConfigDoc ℕ
doc = record {
  server = record {
    bind = "0.0.0.0";
    port = 8080;
    request_timeout_ms = 60000;
    max_body_bytes = 1048576;
    shutdown_grace_ms = 10000;
    default_max_tokens = 4096;
    moa_expose_metadata = false;
    breaker = record { failure_threshold = 5; open_ms = 30000; half_open_successes = 2 };
    retry = record { enabled = true; max_retries = 2; backoff_ms = 100 };
    usage_store = none;
  };
  keys =
      record {
        id = "team";
        key_env = some "TEAM_KEY";
        key_sha256 = none;
        allow_models = "*" ∷ [];
        rate_limit = none;
      }
      ∷ [];
  models = model_doc ∷ [];
  recipes =
      (
        "best",
        record {
          proposers = "gpt-5.5" ∷ "gpt-5.5" ∷ [];
          aggregator = "gpt-5.5";
          strategy = concat_synthesize;
          arm_timeout_ms = 30000;
          quorum = 1;
        },
      )
      ∷ [];
}

abbrev pub model : ModelConfig
model = record {
  name = "gpt-5.5";
  provider_type = openai_compat;
  base_url = "https://api.example.com/v1";
  api_key_env = "OPENAI_KEY";
  state_key = "openai-compat|https://api.example.com/v1|OPENAI_KEY";
  upstream_id = "gpt-5.5";
  rate_limit = some (record { rps = 5; burst = 5 });
  max_concurrency = some 4;
  price_prompt_nano_per_mtok = some (pos 3000000000);
  price_completion_nano_per_mtok = none;
}

abbrev pub config : RuntimeConfig
config = record {
  server = server_of doc.server;
  keys =
      record { id = "team"; secret = plain "s3cret"; allow_models = "*" ∷ []; rate_limit = none }
      ∷ [];
  models = ("gpt-5.5", model) ∷ [];
  recipes =
      (
        "best",
        record {
          name = "best";
          proposers = "gpt-5.5" ∷ "gpt-5.5" ∷ [];
          aggregator = "gpt-5.5";
          strategy = concat_synthesize;
          arm_timeout_ms = 30000;
          quorum = 1;
        },
      )
      ∷ [];
}

pub doc-validate : validate host doc ≡ ok config
unfolding validate load_models validate_model valid_base_url trim_end_slashes valid_rate_limit
    valid_price derive_state_key check_governance load_keys validate_key secret_of load_recipes
    validate_recipe check_proposers Dict.get Dict.insert Dict.values
doc-validate = refl

validate-WellFormed_example : WellFormed config
validate-WellFormed_example = validate-WellFormed host doc config doc-validate
