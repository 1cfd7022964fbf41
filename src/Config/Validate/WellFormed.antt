-- ===== src/Config/Validate/WellFormed.antt =====
-- crates/moaray-config/src/validate.rs: the invariants that every validated configuration has.
use moaray.Base.{String, ◌≡◌, subst, Bool, some, [], All, is_some}
use moaray.Base.Dict
use moaray.Base.Result.{ok, fail_if, passed, ok-injective}
use moaray.Config.Runtime.{ModelConfig, RuntimeConfig}
use moaray.Config.Schema.{ConfigDoc, no_models}
use moaray.Config.Rules.{Host, is_nil, check_governance, load_recipes}
use moaray.Config.Validate.{validate, load_models, load_keys}
use moaray.Config.Validate.Models.{
  ModelIsValid, KeyIsValid, RecipeIsValid, load_models-Distinct, load_models-valid, load_keys-valid,
  load_recipes-valid,
}
use moaray.Config.Validate.Governance.{SameLimits, check_governance-All}

abbrev pub known_in : RuntimeConfig → String → Bool
known_in c name = is_some (Dict.get c.models name)

pub record WellFormed (c : RuntimeConfig) : Type 0 where
  pub models_distinct : Dict.Distinct c.models
  pub models_valid : Dict.Entries ModelIsValid c.models
  pub keys_valid : All KeyIsValid c.keys
  pub recipes_valid : Dict.Entries (RecipeIsValid (known_in c)) c.recipes
  pub one_governance :
      (k : String) (a : ModelConfig)
      → Dict.get c.models k ≡ some a
      → All (λ b. a.state_key ≡ b.state_key → SameLimits a b) (Dict.values c.models)

-- A configuration that passes validation has no model twice; models under their own names, with derived state keys,
-- limits with 1 ≤ rps ≤ burst and prices that are not negative; keys with a model each at least;
-- recipes whose models are all configured and whose quorum lies from 1 to the number of
-- proposers; and one set of limits for each upstream identity.
pub validate-WellFormed :
    (H : Host) (doc : ConfigDoc H.Float) (c : RuntimeConfig) → validate H doc ≡ ok c → WellFormed c
unfolding validate
validate-WellFormed H doc c h =
    let some_model = passed _ (fail_if (is_nil doc.models) no_models) h in
    let models = passed _ (load_models H [] doc.models) some_model.second in
    let governed = passed _ (check_governance [] (Dict.values models.value)) models.second in
    let keys = passed _ (load_keys H doc.keys) governed.second in
    let recipes =
      passed _ (load_recipes (λ m. is_some (Dict.get models.value m)) [] doc.recipes) keys.second in
    subst WellFormed (ok-injective recipes.second) (record {
      models_distinct = load_models-Distinct H [] doc.models tt models.first;
      models_valid = load_models-valid H [] doc.models tt models.first;
      keys_valid = load_keys-valid H doc.keys keys.first;
      recipes_valid = load_recipes-valid _ [] doc.recipes tt recipes.first;
      one_governance = λ k a. check_governance-All models.value k a governed.first;
    })
