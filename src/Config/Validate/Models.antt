-- ===== src/Config/Validate/Models.antt =====
-- crates/moaray-config/src/validate.rs: what holds of every model, key and recipe that passes.
use moaray.Base.{
  ◌≤◌, String, ◌≡◌, refl, subst, Bool, true, false, Option, none, some, List, [], ◌∷◌, All, arith,
  length, is_some,
}
use moaray.Base.Int.{ℤ, neg_part}
use moaray.Base.Dict
use moaray.Base.Dict.{Dict}
use moaray.Base.Result.{ok, fail_if, passed, not-failed, ok-injective}
use moaray.Config.Runtime.{RateLimit, KeyConfig, ModelConfig, RecipeConfig}
use moaray.Config.Schema.{
  RateLimitDoc, KeyDoc, RecipeDoc, ModelDoc, duplicate_model, empty_allowlist,
}
use moaray.Config.Rules.{
  Host, derive_state_key, valid_rate_limit, check_proposers, validate_recipe, load_recipes, is_nil,
  secret_of,
}
use moaray.Config.Validate.{
  valid_base_url, valid_price, validate_model, load_models, validate_key, load_keys,
}

abbrev pub LimitIsValid : Option RateLimit → Type 0
LimitIsValid none = Unit
LimitIsValid (some l) = (1 ≤ l.rps) × (l.rps ≤ l.burst)

abbrev pub PriceIsValid : Option ℤ → Type 0
PriceIsValid none = Unit
PriceIsValid (some z) = neg_part z ≡ 0

pub record ModelIsValid (name : String) (m : ModelConfig) : Type 0 where
  pub named : m.name ≡ name
  pub keyed : m.state_key ≡ derive_state_key m.provider_type m.base_url m.api_key_env
  pub limited : LimitIsValid m.rate_limit
  pub prompt_priced : PriceIsValid m.price_prompt_nano_per_mtok
  pub completion_priced : PriceIsValid m.price_completion_nano_per_mtok

pub record KeyIsValid (k : KeyConfig) : Type 0 where
  pub allows_some : is_nil k.allow_models ≡ false
  pub limited : LimitIsValid k.rate_limit

pub record RecipeIsValid (known : String → Bool) (name : String) (r : RecipeConfig) : Type 0 where
  pub named : r.name ≡ name
  pub proposers_known : All (λ p. known p ≡ true) r.proposers
  pub aggregator_known : known r.aggregator ≡ true
  pub quorum_positive : 1 ≤ r.quorum
  pub quorum_reachable : r.quorum ≤ length r.proposers

valid_rate_limit-LimitIsValid :
    (scope name : String) (doc : Option RateLimitDoc) {l : Option RateLimit}
    → valid_rate_limit scope name doc ≡ ok l
    → LimitIsValid l
unfolding valid_rate_limit
valid_rate_limit-LimitIsValid scope name none {l = none} h = tt
valid_rate_limit-LimitIsValid scope name none {l = some l} h = ground arith
valid_rate_limit-LimitIsValid scope name (some d) {l = none} h = tt
valid_rate_limit-LimitIsValid scope name (some d) {l = some l} h = ground arith

check_proposers-known :
    (known : String → Bool) (recipe : String) (ps : List String)
    → check_proposers known recipe ps ≡ ok tt
    → All (λ p. known p ≡ true) ps
unfolding check_proposers
check_proposers-known known recipe [] h = tt
check_proposers-known known recipe (p ∷ ps) h =
    ground (arith, check_proposers-known known recipe ps)

validate_recipe-RecipeIsValid :
    (known : String → Bool) (name : String) (d : RecipeDoc) {r : RecipeConfig}
    → validate_recipe known name d ≡ ok r
    → RecipeIsValid known name r
unfolding validate_recipe
validate_recipe-RecipeIsValid known name d h =
    ground (arith, check_proposers-known known name d.proposers)

pub load_recipes-valid :
    (known : String → Bool) (acc : Dict RecipeConfig) (ds : Dict RecipeDoc) {rs : Dict RecipeConfig}
    → Dict.Entries (RecipeIsValid known) acc
    → load_recipes known acc ds ≡ ok rs
    → Dict.Entries (RecipeIsValid known) rs
unfolding load_recipes
load_recipes-valid known acc [] v h = subst (Dict.Entries (RecipeIsValid known)) (ok-injective h) v
load_recipes-valid known acc ((name, d) ∷ ds) v h =
    let one = passed _ _ h in
    load_recipes-valid known (Dict.insert acc name one.value) ds
      (Dict.insert-Entries (RecipeIsValid known) acc name one.value
        (validate_recipe-RecipeIsValid known name d one.first) v)
      one.second

module _ (H : Host) where
  valid_price-PriceIsValid :
      (model field : String) (v : Option H.Float) {z : Option ℤ}
      → valid_price H model field v ≡ ok z
      → PriceIsValid z
  unfolding valid_price
  valid_price-PriceIsValid model field none {z = none} h = tt
  valid_price-PriceIsValid model field none {z = some z} h = cc
  valid_price-PriceIsValid model field (some v) {z = none} h = tt
  valid_price-PriceIsValid model field (some v) {z = some z} h = ground (arith, H.nano_nonneg v)

  validate_model-ModelIsValid :
      (d : ModelDoc H.Float) {m : ModelConfig} → validate_model H d ≡ ok m → ModelIsValid d.name m
  unfolding validate_model
  validate_model-ModelIsValid d {m} h =
      let url = passed _ (valid_base_url H d.name d.base_url) h in
      let limit = passed _ (valid_rate_limit "model" d.name d.rate_limit) url.second in
      let prompt =
        passed _ (valid_price H d.name "price_prompt_per_mtok_usd" d.price_prompt_per_mtok_usd)
          limit.second in
      let completion =
        passed _
          (valid_price H d.name "price_completion_per_mtok_usd" d.price_completion_per_mtok_usd)
          prompt.second in
      subst (ModelIsValid d.name) (ok-injective completion.second) (record {
        named = refl;
        keyed = refl;
        limited = valid_rate_limit-LimitIsValid "model" d.name d.rate_limit limit.first;
        prompt_priced =
            valid_price-PriceIsValid d.name "price_prompt_per_mtok_usd" d.price_prompt_per_mtok_usd
              prompt.first;
        completion_priced =
            valid_price-PriceIsValid d.name "price_completion_per_mtok_usd"
              d.price_completion_per_mtok_usd completion.first;
      })

  pub load_models-valid :
      (acc : Dict ModelConfig) (ds : List (ModelDoc H.Float)) {ms : Dict ModelConfig}
      → Dict.Entries ModelIsValid acc
      → load_models H acc ds ≡ ok ms
      → Dict.Entries ModelIsValid ms
  unfolding load_models
  load_models-valid acc [] v h = subst (Dict.Entries ModelIsValid) (ok-injective h) v
  load_models-valid acc (d ∷ ds) v h =
      let fresh = passed _ (fail_if (is_some (Dict.get acc d.name)) (duplicate_model d.name)) h in
      let one = passed _ (validate_model H d) fresh.second in
      load_models-valid (Dict.insert acc d.name one.value) ds
        (Dict.insert-Entries ModelIsValid acc d.name one.value
          (validate_model-ModelIsValid d one.first) v)
        one.second

  -- Duplicates are refused, so that no name stands twice.
  pub load_models-Distinct :
      (acc : Dict ModelConfig) (ds : List (ModelDoc H.Float)) {ms : Dict ModelConfig}
      → Dict.Distinct acc
      → load_models H acc ds ≡ ok ms
      → Dict.Distinct ms
  unfolding load_models
  load_models-Distinct acc [] v h = subst Dict.Distinct (ok-injective h) v
  load_models-Distinct acc (d ∷ ds) v h =
      let fresh = passed _ (fail_if (is_some (Dict.get acc d.name)) (duplicate_model d.name)) h in
      let one = passed _ (validate_model H d) fresh.second in
      let new = not-failed (is_some (Dict.get acc d.name)) (duplicate_model d.name) fresh.first in
      load_models-Distinct (Dict.insert acc d.name one.value) ds
        (Dict.insert-Distinct acc d.name one.value (ground (arith, new)) v) one.second

  validate_key-KeyIsValid : (d : KeyDoc) {k : KeyConfig} → validate_key H d ≡ ok k → KeyIsValid k
  unfolding validate_key
  validate_key-KeyIsValid d {k} h =
      let secret = passed _ (secret_of H.env H.to_lowercase d.id d.key_env d.key_sha256) h in
      let listed =
        passed _ (fail_if (is_nil d.allow_models) (empty_allowlist d.id)) secret.second in
      let limit = passed _ (valid_rate_limit "key" d.id d.rate_limit) listed.second in
      subst KeyIsValid (ok-injective limit.second) (record {
        allows_some = not-failed (is_nil d.allow_models) (empty_allowlist d.id) listed.first;
        limited = valid_rate_limit-LimitIsValid "key" d.id d.rate_limit limit.first;
      })

  pub load_keys-valid :
      (ds : List KeyDoc) {ks : List KeyConfig} → load_keys H ds ≡ ok ks → All KeyIsValid ks
  unfolding load_keys
  load_keys-valid [] h = subst (All KeyIsValid) (ok-injective h) tt
  load_keys-valid (d ∷ ds) h =
      let one = passed _ (validate_key H d) h in
      let others = passed _ (load_keys H ds) one.second in
      subst (All KeyIsValid) (ok-injective others.second)
        (validate_key-KeyIsValid d one.first, load_keys-valid ds others.first)
