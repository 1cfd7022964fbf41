-- ===== src/Reload/Signed.antt =====
-- crates/moaray/src/reload.rs: why a provider that is reused for its signature is the right one.
use moaray.Base.{String, ◌≡◌, Option, some, inl, inr}
use moaray.Base.Dict
use moaray.Base.Result.{Result-cases}
use moaray.Config.Runtime.{ModelConfig, RuntimeConfig}
use moaray.Config.Rules.{derive_state_key}
use moaray.Config.Validate.Models.{ModelIsValid}
use moaray.Config.Validate.WellFormed.{WellFormed}
use moaray.Limit.{Governor}
use moaray.State.{ensure_for_config}
use moaray.Registry.{signature_in, build_providers_with}
use moaray.Registry.Signature.{IsBarFree, provider_signature-SameFields}
use moaray.Reload.{Gateway, published_config, publish, apply}
use moaray.Reload.Protected.{Tells}

-- The models of the configuration have no bar where it would make signatures ambiguous.
abbrev pub HasBarFree : RuntimeConfig → Type 0
HasBarFree c = (name : String) (m : ModelConfig) → Dict.get c.models name ≡ some m → IsBarFree m

-- The state keys of the models can be read off their signatures.
pub record IsReadable (c : RuntimeConfig) : Type 0 where
  pub bar_free : HasBarFree c
  pub keyed :
      (name : String) (m : ModelConfig)
      → Dict.get c.models name ≡ some m
      → m.state_key ≡ derive_state_key m.provider_type m.base_url m.api_key_env

pub WellFormed-IsReadable : (c : RuntimeConfig) → WellFormed c → HasBarFree c → IsReadable c
WellFormed-IsReadable c w f = record {
  bar_free = f;
  keyed = λ name m e. (Dict.get-Entries ModelIsValid c.models name w.models_valid e).keyed;
}

-- The signatures of two such configurations tell upstreams and limits apart.
pub IsReadable-Tells :
    (prev new : RuntimeConfig) → IsReadable prev → IsReadable new → Tells prev new
unfolding signature_in
IsReadable-Tells prev new p n = record {
  tell = λ name a b old_key new_key f g e.
      let same =
        provider_signature-SameFields a b old_key new_key prev.server.default_max_tokens
          new.server.default_max_tokens prev.server.retry new.server.retry prev.server.breaker
          new.server.breaker (p.bar_free name a f) (n.bar_free name b g) e in
      (
        cc (
          p.keyed name a f,
          n.keyed name b g,
          same.provider_type,
          same.base_url,
          same.api_key_env,
        ),
        cc (same.rate_limit, same.max_concurrency, same.breaker),
      );
}

module _ (G : Governor) where
  -- A reload publishes the models of one of the two configurations.
  pub apply-IsReadable :
      (env : String → Option String) (new : RuntimeConfig) (g : Gateway G)
      → IsReadable g.runtime.config
      → IsReadable new
      → IsReadable (apply G env new g).0.runtime.config
  unfolding apply publish published_config
  apply-IsReadable env new g old fresh =
      elim (Result-cases (
        build_providers_with G new (ensure_for_config G g.stateful new) env (some g.last_built)
          g.next)) [
            | inl (built, e) ↦
                rw (e, apply) (record { bar_free = fresh.bar_free; keyed = fresh.keyed })
            | inr (refusal, e) ↦ rw (e, apply) old
          ]
