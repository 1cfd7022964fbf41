-- ===== src/Reload/Reachable.antt =====
-- crates/moaray/src/reload.rs and main.rs: the gateway after a boot and after a collection.
use moaray.Base.{
  String, str_eq, str_eq_refl, ◌≡◌, refl, sym, ap, subst, ◌∙◌, Option, none, some, arith,
  Bool-cases, inl, inr, ltb,
}
use moaray.Base.Dict
use moaray.Base.Dict.{Dict}
use moaray.Base.Result.{ok, ok-injective}
use moaray.Config.Runtime.{ModelConfig, RuntimeConfig}
use moaray.Config.Validate.WellFormed.{WellFormed}
use moaray.Limit.{Governor}
use moaray.State.{
  Arc, UpstreamState, StatefulState, upstream, ensure_for_config, install_key_limiters,
  retain_for_config, from_config, empty, live_upstream,
}
use moaray.State.Reconcile.{ensure_for_config-Reconciled, retain_for_config-exact}
use moaray.Registry.{reusable, provider_of}
use moaray.Registry.Protected.{build_providers_with-Built}
use moaray.Reload.Signed.{HasBarFree, IsReadable, WellFormed-IsReadable}
use moaray.Reload.Protected.{IsSound, one_value, install_keys-upstream}
use moaray.Reload.{Gateway, boot, started, collect}

module _ (G : Governor) where
  retain_for_config-live :
      (s : StatefulState G) (config : RuntimeConfig) (name : String) (m : ModelConfig)
      → Dict.get config.models name ≡ some m
      → upstream G (retain_for_config G s config).0 m.state_key ≡ upstream G s m.state_key
  unfolding live_upstream
  retain_for_config-live s config name m f =
      let live =
        Dict.any-values (λ (x : ModelConfig). str_eq x.state_key m.state_key) config.models name f
          (str_eq_refl m.state_key) in
      ground (arith, retain_for_config-exact G s config m.state_key, live)

  pub collect-IsSound : (g : Gateway G) → IsSound G g → IsSound G (collect G g)
  unfolding collect
  collect-IsSound g sound = elim (Bool-cases (ltb 0 g.waiting)) [
    | inl due ↦ rw due (record {
      models = λ name m f.
          let p = sound.models name m f in
          record {
            built = p.built;
            kept = p.kept;
            published = p.published;
            bound = record {
              slot = retain_for_config-live g.stateful g.runtime.config name m f ∙ p.bound.slot;
              api_key = p.bound.api_key;
              signed = p.bound.signed;
            };
            governed = p.governed;
          };
      no_other = sound.no_other;
    })
    | inr early ↦ rw early sound
  ]

  -- A boot with a valid configuration succeeds.
  pub boot_succeeds :
      (env : String → Option String) (config : RuntimeConfig)
      → WellFormed config
      → (g : Gateway G) × (boot G env config ≡ ok g) × (g.runtime.config ≡ config) × IsSound G g
  unfolding boot started from_config reusable provider_of Dict.get install_key_limiters
  boot_succeeds env config w =
      let s = ensure_for_config G (empty G) config in
      let r = ensure_for_config-Reconciled G (empty G) config w in
      let (built, e, v) =
        build_providers_with-Built G config (from_config G config) env none 0 w.models_distinct
          (λ name m f.
            let slot = r.slotted name m f in
            (slot.slot, install_keys-upstream G config.keys s 0 m.state_key ∙ slot.found))
          (λ name m key b f x. cc x) in
      let one_slot : (k : String) → upstream G (from_config G config) k ≡ upstream G s k =
        install_keys-upstream G config.keys s 0 in
      (
        started G config built,
        rw (e, boot) refl,
        refl,
        record {
          models = λ name m f.
              let (b, here, w) = v.bound name m f in
              let slot = r.slotted name m f in
              record {
                built = b;
                kept = here;
                published = Dict.get-map_values (provider_of G) built name here;
                bound = w;
                governed =
                    ap (λ (a : Arc (UpstreamState G)). a.value.governance)
                      (one_value w.slot (one_slot m.state_key ∙ slot.found))
                    ∙ slot.governed;
              };
          no_other = v.other;
        },
      )

  pub boot-IsSound :
      (env : String → Option String) (config : RuntimeConfig) (g : Gateway G)
      → WellFormed config
      → boot G env config ≡ ok g
      → IsSound G g
  boot-IsSound env config g w e =
      let (h, f, same, sound) = boot_succeeds env config w in
      subst (IsSound G) (ok-injective (sym f ∙ e)) sound

  pub boot-IsReadable :
      (env : String → Option String) (config : RuntimeConfig) (g : Gateway G)
      → WellFormed config
      → HasBarFree config
      → boot G env config ≡ ok g
      → IsReadable g.runtime.config
  boot-IsReadable env config g w f e =
      let (h, b, same, sound) = boot_succeeds env config w in
      subst IsReadable
        (sym same ∙ ap (λ (x : Gateway G). x.runtime.config) (ok-injective (sym b ∙ e)))
        (WellFormed-IsReadable config w f)

  pub collect-IsReadable :
      (g : Gateway G) → IsReadable g.runtime.config → IsReadable (collect G g).runtime.config
  unfolding collect
  collect-IsReadable g r = elim (Bool-cases (ltb 0 g.waiting)) [
    | inl due ↦ rw due r
    | inr early ↦ rw early r
  ]
