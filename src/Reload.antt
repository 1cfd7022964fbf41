-- ===== src/Reload.antt =====
-- crates/moaray/src/reload.rs, and the start-up of crates/moaray/src/main.rs: what is published and in
-- which order. A reload holds the lock, so that one reload or collection is one step.
pub mod Protected
pub mod Signed
pub mod Reachable
pub mod FromText
pub mod Arms
pub mod Outcome
mod Examples
use moaray.Base.{
  ℕ, suc, ◌+◌, ◌-◌, String, str_eq, Bool, true, false, not, Option, none, some, List, [], ◌∷◌, ◌++◌,
  if◌then◌else◌, ◌==◌, ltb, any, keep, map, length, ◌&&◌,
}
use moaray.Base.Dict
use moaray.Base.Dict.{Dict}
use moaray.Base.Result.{Result, ok, err, ◌>>=◌}
use moaray.Config.Schema.{ConfigError}
use moaray.Config.Runtime.{UsageStoreConfig, ModelConfig, RuntimeConfig}
use moaray.Limit.{Governor}
use moaray.State.{
  Arc, StatefulState, ensure_for_config, install_key_limiters, retain_for_config,
  retain_key_limiters, from_config,
}
use moaray.Registry.{
  GovernedProvider, BuiltProvider, Orchestrator, build_providers_with, provider_of,
  build_orchestrator_from_built,
}

pub record ReloadOutcome : Type 0 where
  pub upstreams_added : ℕ
  pub upstreams_unchanged : ℕ
  pub upstreams_removed : ℕ
  pub providers_reused : ℕ
  pub providers_built : ℕ

contains : List String → String → Bool
contains ks k = any (str_eq k) ks

-- The distinct values of a list, as a `HashSet` holds them.
hash_set : List String → List String
unfolding contains
hash_set [] = []
hash_set (k ∷ ks) = let rest = hash_set ks in if contains rest k then rest else k ∷ rest

pub state_keys : RuntimeConfig → List String
unfolding hash_set
state_keys config = hash_set (map (λ (m : ModelConfig). m.state_key) (Dict.values config.models))

-- `difference` and `intersection`, counted.
unfoldable pub difference : List String → List String → ℕ
unfolding contains
difference xs ys = length (keep (λ k. not (contains ys k)) xs)

unfoldable pub intersection : List String → List String → ℕ
unfolding contains
intersection xs ys = length (keep (contains ys) xs)

usage_store_eq : Option UsageStoreConfig → Option UsageStoreConfig → Bool
usage_store_eq none none = true
usage_store_eq (some a) (some b) =
    str_eq a.path b.path
    && (a.channel_capacity == b.channel_capacity)
    && (a.batch_size == b.batch_size)
usage_store_eq _ _ = false

changed_field : Bool → String → List String
changed_field same field = if same then [] else field ∷ []

unfoldable pub frozen_field_changes : RuntimeConfig → RuntimeConfig → List String
unfolding usage_store_eq changed_field
frozen_field_changes prev new =
    changed_field (str_eq prev.server.bind new.server.bind) "bind"
    ++ changed_field (prev.server.port == new.server.port) "port"
    ++ changed_field (prev.server.shutdown_grace_ms == new.server.shutdown_grace_ms)
        "shutdown_grace_ms"
    ++ changed_field (usage_store_eq prev.server.usage_store new.server.usage_store) "usage_store"

-- The configuration that is published: the new one with the usage store of the running one.
unfoldable pub published_config : RuntimeConfig → RuntimeConfig → RuntimeConfig
published_config new prev = record new {
  server = record new.server { usage_store = prev.server.usage_store };
}

module _ (G : Governor) where
  pub record Runtime : Type 0 where
    pub config : RuntimeConfig
    pub providers : Dict (Arc (GovernedProvider G))
    pub orchestrator : Orchestrator G

  -- The shared state, with what the reloader keeps: the providers of the last build, the next fresh
  -- address of a provider, and how many collections of orphaned slots are waiting for their delay.
  pub record Gateway : Type 0 where
    pub runtime : Runtime
    pub stateful : StatefulState G
    pub last_built : Dict (BuiltProvider G)
    pub next : ℕ
    pub waiting : ℕ

  runtime_of : RuntimeConfig → RuntimeConfig → Dict (BuiltProvider G) → Runtime
  runtime_of config built_from built = record {
    config = config;
    providers = Dict.map_values (provider_of G) built;
    orchestrator = build_orchestrator_from_built G built_from built;
  }

  -- The entries of the build that are the very providers of the last one.
  reused : Dict (BuiltProvider G) → Dict (BuiltProvider G) → ℕ
  reused last_built [] = 0
  reused last_built ((name, b) ∷ built) =
      let rest = reused last_built built in
      elim (Dict.get last_built name) [
        | none ↦ rest
        | some p ↦ if p.provider.address == b.provider.address then suc rest else rest
      ]

  -- The state that is shared once the first providers are built.
  unfoldable pub started : RuntimeConfig → Dict (BuiltProvider G) → Gateway
  unfolding runtime_of
  started config built = record {
    runtime = runtime_of config config built;
    stateful = from_config G config;
    last_built = built;
    next = length config.models;
    waiting = 0;
  }

  unfoldable pub boot : (String → Option String) → RuntimeConfig → Result Gateway String
  boot env config = do
    built ← build_providers_with G config (from_config G config) env none 0
    ok (started config built)

  -- The part of `apply` behind the build.
  unfoldable publish :
      RuntimeConfig → Gateway → StatefulState G → Dict (BuiltProvider G) → Gateway × ReloadOutcome
  unfolding runtime_of reused state_keys
  publish new_config g stateful built =
      let prev_config = g.runtime.config in
      let prev_keys = state_keys prev_config in
      let new_keys = state_keys new_config in
      let removed = difference prev_keys new_keys in
      let (installed, k_updated) = install_key_limiters G stateful new_config in
      let (reconciled, k_removed) = retain_key_limiters G installed new_config in
      (
        record {
          runtime = runtime_of (published_config new_config prev_config) new_config built;
          stateful = reconciled;
          last_built = built;
          next = g.next + length new_config.models;
          waiting = if ltb 0 removed then suc g.waiting else g.waiting;
        },
        record {
          upstreams_added = difference new_keys prev_keys;
          upstreams_unchanged = intersection new_keys prev_keys;
          upstreams_removed = removed;
          providers_reused = reused g.last_built built;
          providers_built = length built - reused g.last_built built;
        },
      )

  unfoldable pub apply :
      (String → Option String) → RuntimeConfig → Gateway → Gateway × Result ReloadOutcome String
  unfolding publish
  apply env new_config g =
      let stateful = ensure_for_config G g.stateful new_config in
      elim (build_providers_with G new_config stateful env (some g.last_built) g.next) [
        | err e ↦ (record g { stateful = stateful }, err e)
        | ok built ↦
            let (after, outcome) = publish new_config g stateful built in (after, ok outcome)
      ]

  -- `reload`: the file is read, parsed and validated before anything is touched.
  unfoldable pub reload :
      (String → Option String)
      → (String → Result RuntimeConfig ConfigError)
      → Option String
      → Gateway
      → Gateway × Result ReloadOutcome String
  reload env load none g = (g, err "reading config")
  reload env load (some yaml) g = elim (load yaml) [
    | err e ↦ (g, err "invalid config")
    | ok new_config ↦ apply env new_config g
  ]

  -- `main`, up to the published state.
  unfoldable pub boot_from :
      (String → Option String)
      → (String → Result RuntimeConfig ConfigError)
      → String
      → Result Gateway String
  boot_from env load yaml = elim (load yaml) [
    | err e ↦ err "invalid config"
    | ok config ↦ boot env config
  ]

  -- A collection whose delay is over, against the configuration that is live by then.
  unfoldable pub collect : Gateway → Gateway
  collect g =
      if ltb 0 g.waiting
      then record g {
        stateful = (retain_for_config G g.stateful g.runtime.config).0;
        waiting = g.waiting - 1;
      }
      else g
