-- ===== src/Config/Defaults/SpelledOut.antt =====
-- crates/moaray-config/src/schema.rs: a configuration file that leaves nothing out.
use moaray.Base.{Option, none, some, [], ◌∷◌, ◌≡◌, refl, ap}
use moaray.Base.Dict.{Dict}
use moaray.Config.Schema.{BreakerDoc, RetryDoc, UsageStoreDoc, ServerDoc, RecipeDoc, ConfigDoc}
use moaray.Config.Defaults.{
  BreakerYaml, RetryYaml, UsageStoreYaml, ServerYaml, RecipeYaml, ConfigYaml, fill_breaker,
  fill_retry, fill_usage_store, fill_server, fill_recipes, fill,
}

abbrev spell_breaker : BreakerDoc → BreakerYaml
spell_breaker b = record {
  failure_threshold = some b.failure_threshold;
  open_ms = some b.open_ms;
  half_open_successes = some b.half_open_successes;
}

abbrev spell_retry : RetryDoc → RetryYaml
spell_retry r = record {
  enabled = some r.enabled;
  max_retries = some r.max_retries;
  backoff_ms = some r.backoff_ms;
}

unfoldable spell_usage_store : Option UsageStoreDoc → Option UsageStoreYaml
spell_usage_store none = none
spell_usage_store (some u) = some (record {
  path = u.path;
  channel_capacity = some u.channel_capacity;
  batch_size = some u.batch_size;
})

abbrev spell_server : ServerDoc → ServerYaml
spell_server s = record {
  bind = some s.bind;
  port = some s.port;
  request_timeout_ms = some s.request_timeout_ms;
  max_body_bytes = some s.max_body_bytes;
  shutdown_grace_ms = some s.shutdown_grace_ms;
  default_max_tokens = some s.default_max_tokens;
  moa_expose_metadata = some s.moa_expose_metadata;
  breaker = some (spell_breaker s.breaker);
  retry = some (spell_retry s.retry);
  usage_store = spell_usage_store s.usage_store;
}

abbrev spell_recipe : RecipeDoc → RecipeYaml
spell_recipe r = record {
  proposers = r.proposers;
  aggregator = r.aggregator;
  strategy = r.strategy;
  arm_timeout_ms = some r.arm_timeout_ms;
  quorum = r.quorum;
}

unfoldable spell_recipes : Dict RecipeDoc → Dict RecipeYaml
spell_recipes [] = []
spell_recipes ((name, r) ∷ rs) = (name, spell_recipe r) ∷ spell_recipes rs

pub spell_out : {F : Type 0} → ConfigDoc F → ConfigYaml F
spell_out d = record {
  server = some (spell_server d.server);
  keys = d.keys;
  models = d.models;
  recipes = some (spell_recipes d.recipes);
}

fill-spell_usage_store : (u : Option UsageStoreDoc) → fill_usage_store (spell_usage_store u) ≡ u
unfolding fill_usage_store spell_usage_store
fill-spell_usage_store none = refl
fill-spell_usage_store (some u) = refl

fill-spell_server : (s : ServerDoc) → fill_server (some (spell_server s)) ≡ s
unfolding fill_server fill_breaker fill_retry
fill-spell_server s = ap (λ u. record s { usage_store = u }) (fill-spell_usage_store s.usage_store)

fill-spell_recipes : (rs : Dict RecipeDoc) → fill_recipes (spell_recipes rs) ≡ rs
unfolding fill_recipes spell_recipes
fill-spell_recipes [] = refl
fill-spell_recipes ((name, r) ∷ rs) = ap (λ tail. (name, r) ∷ tail) (fill-spell_recipes rs)

-- No default replaces what a file says: a file that spells a document out is read as that document.
pub fill-spell_out : {F : Type 0} (d : ConfigDoc F) → fill (spell_out d) ≡ d
unfolding fill spell_out
fill-spell_out d =
    ap (λ (p : ServerDoc × Dict RecipeDoc). record d { server = p.0; recipes = p.1 })
      (λ i. (fill-spell_server d.server i, fill-spell_recipes d.recipes i))
