-- ===== src/Reload/FromText.antt =====
-- crates/moaray/src/reload.rs and main.rs: a process from the text of its first configuration on.
use moaray.Base.{ℕ, suc, String, ◌≡◌, refl, sym, ◌∙◌, Option, none, some, inl, inr}
use moaray.Base.Result.{Result, ok, err, Result-cases, passed}
use moaray.Config.Schema.{ConfigError}
use moaray.Config.Defaults.{ConfigYaml}
use moaray.Config.Runtime.{RuntimeConfig}
use moaray.Config.Rules.{Host}
use moaray.Config.Validate.WellFormed.{WellFormed, validate-WellFormed}
use moaray.Config.Load.{parse_yaml, load_yaml}
use moaray.Limit.{Governor}
use moaray.Reload.{Gateway, boot, collect, reload, boot_from}
use moaray.Reload.Protected.{IsSound, apply-IsSound}
use moaray.Reload.Signed.{
  HasBarFree, IsReadable, WellFormed-IsReadable, IsReadable-Tells, apply-IsReadable,
}
use moaray.Reload.Reachable.{boot-IsSound, boot-IsReadable, collect-IsSound, collect-IsReadable}

module _ (H : Host) (from_str : String → Result (ConfigYaml H.Float) String) where
  pub load_yaml-WellFormed :
      (yaml : String) {c : RuntimeConfig} → load_yaml H from_str yaml ≡ ok c → WellFormed c
  unfolding load_yaml
  load_yaml-WellFormed yaml {c} h =
      let p = passed _ (parse_yaml H from_str yaml) h in validate-WellFormed H p.value c p.second

  -- If the text loads, no URL and no name of a key's variable in it holds a bar.
  abbrev pub IsBarFreeText : String → Type 0
  IsBarFreeText yaml = (c : RuntimeConfig) → load_yaml H from_str yaml ≡ ok c → HasBarFree c

  abbrev pub IsBarFreeFile : Option String → Type 0
  IsBarFreeFile none = Unit
  IsBarFreeFile (some yaml) = IsBarFreeText yaml

  module _ (G : Governor) where
    -- What a process does: it boots from a text, reads whatever stands in the file by then, and collects.
    pub data Process (env : ℕ → String → Option String) : ℕ → Gateway G → Type 0 where
      booted :
          (yaml : String) {g : Gateway G}
          → IsBarFreeText yaml
          → boot_from G (env 0) (load_yaml H from_str) yaml ≡ ok g
          → Process env 0 g
      reloaded :
          {n : ℕ} {g : Gateway G} (file : Option String)
          → IsBarFreeFile file
          → Process env n g
          → Process env (suc n) (reload G (env (suc n)) (load_yaml H from_str) file g).0
      collected : {n : ℕ} {g : Gateway G} → Process env n g → Process env (suc n) (collect G g)

    -- A gateway that protects its upstreams, and that the next reload can tell apart.
    pub record Holds (g : Gateway G) : Type 0 where
      pub sound : IsSound G g
      pub readable : IsReadable g.runtime.config

    boot_from-Holds :
        (env : String → Option String) (yaml : String) (g : Gateway G)
        → IsBarFreeText yaml
        → boot_from G env (load_yaml H from_str) yaml ≡ ok g
        → Holds g
    unfolding boot_from
    boot_from-Holds env yaml g free h = elim (Result-cases (load_yaml H from_str yaml)) [
      | inr (e, bad) ↦ absurd (err-ne-ok (sym (refused bad) ∙ h))
      | inl (c, good) ↦
          let w = load_yaml-WellFormed yaml good in
          let b : boot G env c ≡ ok g = sym (loaded good) ∙ h in
          record {
            sound = boot-IsSound G env c g w b;
            readable = boot-IsReadable G env c g w (free c good) b;
          }
    ]
      where
        refused :
            {e : ConfigError}
            → load_yaml H from_str yaml ≡ err e
            → boot_from G env (load_yaml H from_str) yaml ≡ err "invalid config"
        refused e = rw (e, boot_from) refl

        loaded :
            {c : RuntimeConfig}
            → load_yaml H from_str yaml ≡ ok c
            → boot_from G env (load_yaml H from_str) yaml ≡ boot G env c
        loaded e = rw (e, boot_from) refl

        err-ne-ok : {A E : Type 0} {e : E} {a : A} → ◌≡◌ {A = Result A E} (err e) (ok a) → ⊥
        err-ne-ok x = cc

    reload-Holds :
        (env : String → Option String) (file : Option String) (g : Gateway G)
        → IsBarFreeFile file
        → Holds g
        → Holds (reload G env (load_yaml H from_str) file g).0
    unfolding reload
    reload-Holds env none g free h = h
    reload-Holds env (some yaml) g free h = elim (Result-cases (load_yaml H from_str yaml)) [
      | inr (e, bad) ↦ rw (bad, reload) h
      | inl (c, good) ↦
          let w = load_yaml-WellFormed yaml good in
          let r = WellFormed-IsReadable c w (free c good) in
          rw (good, reload)
            (record {
              sound =
                  (apply-IsSound G g c env h.sound w
                    (IsReadable-Tells g.runtime.config c h.readable r)).0;
              readable = apply-IsReadable G env c g h.readable r;
            })
    ]

    pub Process-Holds :
        (env : ℕ → String → Option String) (n : ℕ) (g : Gateway G) → Process env n g → Holds g
    Process-Holds env n g (booted yaml free e) = boot_from-Holds (env 0) yaml g free e
    Process-Holds env n _ (reloaded {n = k} {g} file free r) =
        reload-Holds (env n) file g free (Process-Holds env k g r)
    Process-Holds env n _ (collected {n = k} {g} r) =
        let h = Process-Holds env k g r in
        record { sound = collect-IsSound G g h.sound; readable = collect-IsReadable G g h.readable }

    -- Take a process that boots from a text and then, in any order and number, reloads whatever stands
    -- in its configuration file, be it missing, broken or valid, and collects orphans, where no text
    -- that loads has a bar in a URL or in the name of a key's variable. In every gateway on its way each
    -- published model has a provider that holds the slot standing under the model's upstream, and that
    -- slot was built with the model's limits and the published breaker settings.
    pub Process-IsSound :
        (env : ℕ → String → Option String) (n : ℕ) (g : Gateway G) → Process env n g → IsSound G g
    Process-IsSound env n g r = (Process-Holds env n g r).sound
