-- ===== src/Reload/Outcome.antt =====
-- crates/moaray/src/reload.rs: what a reload does, all or nothing, and what it reports.
use moaray.Base.{
  ℕ, ◌+◌, ◌≤◌, String, ◌≡◌, refl, Option, none, some, List, [], ◌∷◌, inl, inr, arith, Bool, not,
  keep, length,
}
use moaray.Base.Dict.{Dict}
use moaray.Base.Result.{Result, ok, err, Result-cases}
use moaray.Config.Runtime.{RuntimeConfig}
use moaray.Config.Schema.{ConfigError}
use moaray.Config.Defaults.{ConfigYaml}
use moaray.Config.Rules.{Host}
use moaray.Config.Load.{load_yaml}
use moaray.Config.Validate.WellFormed.{WellFormed}
use moaray.Limit.{Governor}
use moaray.State.{StatefulState, ensure_for_config}
use moaray.Registry.{BuiltProvider}
use moaray.Reload.{
  ReloadOutcome, Gateway, contains, state_keys, difference, intersection, reused, published_config,
  publish, apply, reload,
}
use moaray.Reload.Protected.{IsSound, Tells, apply-Built}
use moaray.Reload.Signed.{WellFormed-IsReadable, IsReadable-Tells}
use moaray.Reload.FromText.{IsBarFreeFile, Process, Process-Holds, load_yaml-WellFormed}

length-keep_or_not :
    {A : Type 0} (p : A → Bool) (xs : List A)
    → length (keep (λ x. not (p x)) xs) + length (keep p xs) ≡ length xs
length-keep_or_not p [] = refl
length-keep_or_not p (x ∷ xs) = ground (arith, length-keep_or_not p xs)

added_or_unchanged : (xs ys : List String) → difference xs ys + intersection xs ys ≡ length xs
unfolding difference intersection
added_or_unchanged xs ys = length-keep_or_not (contains ys) xs

module _ (G : Governor) where
  reused-le : (last built : Dict (BuiltProvider G)) → reused G last built ≤ length built
  unfolding reused
  reused-le last [] = omega arith
  reused-le last ((name, b) ∷ built) = ground (arith, reused-le last built)

  -- A reload of `new` that succeeds: all of it is published but the usage store, which stays the running
  -- one; the counts of the outcome add up to the new providers and to the new upstreams.
  pub record Published (g : Gateway G) (new : RuntimeConfig) (after : Gateway G) (o : ReloadOutcome)
      : Type 0 where
    pub models : after.runtime.config.models ≡ new.models
    pub keys : after.runtime.config.keys ≡ new.keys
    pub recipes : after.runtime.config.recipes ≡ new.recipes
    pub server :
        after.runtime.config.server
        ≡ record new.server { usage_store = g.runtime.config.server.usage_store }
    pub providers : o.providers_reused + o.providers_built ≡ length after.last_built
    pub upstreams : o.upstreams_added + o.upstreams_unchanged ≡ length (state_keys new)

  publish-Published :
      (new : RuntimeConfig) (g : Gateway G) (s : StatefulState G) (built : Dict (BuiltProvider G))
      → Published g new (publish G new g s built).0 (publish G new g s built).1
  unfolding publish published_config
  publish-Published new g s built = record {
    models = refl;
    keys = refl;
    recipes = refl;
    server = refl;
    providers = omega (arith, reused-le g.last_built built);
    upstreams = added_or_unchanged (state_keys new) (state_keys g.runtime.config);
  }

  apply-Published :
      (env : String → Option String) (new : RuntimeConfig) (g : Gateway G)
      → IsSound G g
      → WellFormed new
      → Tells g.runtime.config new
      → (o : ReloadOutcome) × ((apply G env new g).1 ≡ ok o)
        × Published g new (apply G env new g).0 o
  unfolding apply
  apply-Published env new g sound w tells =
      let (built, e, v) = apply-Built G g new env sound w tells in
      let s = ensure_for_config G g.stateful new in
      rw (e, apply) ((publish G new g s built).1, refl, publish-Published new g s built)

  module _ (H : Host) (from_str : String → Result (ConfigYaml H.Float) String) where
    -- A reload by what stands in the file.
    pub data Reloads (env : String → Option String) (g : Gateway G) : Option String → Type 0 where
      unreadable :
          reload G env (load_yaml H from_str) none g ≡ (g, err "reading config")
          → Reloads env g none
      invalid :
          (yaml : String) (e : ConfigError)
          → load_yaml H from_str yaml ≡ err e
          → reload G env (load_yaml H from_str) (some yaml) g ≡ (g, err "invalid config")
          → Reloads env g (some yaml)
      succeeds :
          (yaml : String) (c : RuntimeConfig) (o : ReloadOutcome)
          → load_yaml H from_str yaml ≡ ok c
          → (reload G env (load_yaml H from_str) (some yaml) g).1 ≡ ok o
          → Published g c (reload G env (load_yaml H from_str) (some yaml) g).0 o
          → Reloads env g (some yaml)

    -- Take a process that boots from a text and then, in any order and number, reloads whatever stands
    -- in its configuration file and collects orphans, where no text that loads has a bar in a URL or in
    -- the name of a key's variable. Its next reload is all or nothing. A file that is missing, or whose
    -- text does not load, leaves the gateway just as it is, with an error. A text that loads is published
    -- without fail, whatever the environment: its models, keys, recipes and server settings, except for
    -- the usage store, which stays the running one. The reused and the built providers that it reports add
    -- up to the providers of the new build, and the added and the unchanged upstreams to the upstreams of
    -- the text.
    pub Process-Reloads :
        (env : ℕ → String → Option String) (n : ℕ) (g : Gateway G)
        → Process H from_str G env n g
        → (now : String → Option String) (file : Option String) → IsBarFreeFile H from_str file
        → Reloads now g file
    unfolding reload
    Process-Reloads env n g p now none free = unreadable refl
    Process-Reloads env n g p now (some yaml) free =
        let h = Process-Holds H from_str G env n g p in
        elim (Result-cases (load_yaml H from_str yaml)) [
          | inr (e, bad) ↦ invalid yaml e bad (rw (bad, reload) refl)
          | inl (c, good) ↦
              let w = load_yaml-WellFormed H from_str yaml good in
              let r = WellFormed-IsReadable c w (free c good) in
              let (o, answer, published) =
                apply-Published now c g h.sound w
                  (IsReadable-Tells g.runtime.config c h.readable r) in
              succeeds yaml c o good (rw (good, reload) answer) (rw (good, reload) published)
        ]
