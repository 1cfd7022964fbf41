-- ===== src/Registry/Protected.antt =====
-- crates/moaray/src/registry.rs: no provider without the slot of its upstream.
use moaray.Base.{
  ℕ, suc, String, str_eq, str_eq_iff, ◌≡◌, refl, ap, subst, Option, none, some, [], ◌∷◌, arith,
  unwrap_or, Option-cases, Bool-cases, inl, inr,
}
use moaray.Base.Dict
use moaray.Base.Dict.{Dict}
use moaray.Base.Result.{ok}
use moaray.Config.Runtime.{ModelConfig, RuntimeConfig}
use moaray.Limit.{Governor}
use moaray.State.{Arc, UpstreamState, StatefulState, upstream}
use moaray.Registry.{
  BuiltProvider, reusable, new_inner, new_provider, signature_in, build_provider, build_loop,
  build_providers_with,
}

module _ (G : Governor) where
  -- A provider that holds the slot of the model's upstream, under the signature of the model.
  pub record Bound (config : RuntimeConfig) (s : StatefulState G) (m : ModelConfig)
      (b : BuiltProvider G) : Type 0 where
    pub slot : upstream G s m.state_key ≡ some b.provider.value.state
    pub api_key : String
    pub signed : b.signature ≡ signature_in config m api_key

  pub reusable-kept :
      (prev : Dict (BuiltProvider G)) (name signature : String) (b : BuiltProvider G)
      → reusable G (some prev) name signature ≡ some b
      → (Dict.get prev name ≡ some b) × (b.signature ≡ signature)
  unfolding reusable
  reusable-kept prev name signature b e = elim (Option-cases (Dict.get prev name)) [
    | inl gone ↦ ground (arith, gone, e)
    | inr (c, here) ↦ ground (arith, here, e, str_eq_iff c.signature signature)
  ]

  reusable-signed :
      (prev : Option (Dict (BuiltProvider G))) (name signature : String) (b : BuiltProvider G)
      → reusable G prev name signature ≡ some b
      → b.signature ≡ signature
  unfolding reusable
  reusable-signed none name signature b e = cc e
  reusable-signed (some prev) name signature b e = (reusable-kept prev name signature b e).1

  module _ (config : RuntimeConfig) (s : StatefulState G) (env : String → Option String)
      (prev : Option (Dict (BuiltProvider G))) where
    build_provider-Bound :
        (next : ℕ) (name : String) (m : ModelConfig) (slot : Arc (UpstreamState G))
        → upstream G s m.state_key ≡ some slot
        → ((b : BuiltProvider G) (api_key : String)
            → reusable G prev name (signature_in config m api_key) ≡ some b
            → upstream G s m.state_key ≡ some b.provider.value.state)
        → (b : BuiltProvider G) × (build_provider G config s env prev next name m ≡ ok b)
          × Bound config s m b
    unfolding build_provider new_provider
    build_provider-Bound next name m slot f t =
        let api_key = unwrap_or (env m.api_key_env) "" in
        let signature = signature_in config m api_key in
        elim (Option-cases (reusable G prev name signature)) [
          | inl fresh ↦ (
            record {
              provider = record {
                address = next;
                value = record {
                  inner = new_inner G m api_key config.server.default_max_tokens;
                  state = slot;
                  retry = config.server.retry;
                };
              };
              signature = signature;
            },
            ground (arith, fresh, f),
            record { slot = f; api_key = api_key; signed = refl },
          )
          | inr (b, e) ↦ (
            b,
            ground (arith, e),
            record {
              slot = t b api_key e;
              api_key = api_key;
              signed = reusable-signed prev name signature b e;
            },
          )
        ]

    -- What the loop over `ms` gives: a bound provider for each of its models, and what was there before
    -- for every other name.
    pub record Built (ms : Dict ModelConfig) (acc built : Dict (BuiltProvider G)) : Type 0 where
      pub bound :
          (name : String) (m : ModelConfig)
          → Dict.get ms name ≡ some m
          → (b : BuiltProvider G) × (Dict.get built name ≡ some b) × Bound config s m b
      pub other :
          (name : String) → Dict.get ms name ≡ none → Dict.get built name ≡ Dict.get acc name

    abbrev pub HasSlots : Dict ModelConfig → Type 0
    HasSlots ms =
        (name : String) (m : ModelConfig)
        → Dict.get ms name ≡ some m
        → (slot : Arc (UpstreamState G)) × (upstream G s m.state_key ≡ some slot)

    abbrev pub Reuses : Dict ModelConfig → Type 0
    Reuses ms =
        (name : String) (m : ModelConfig) (api_key : String) (b : BuiltProvider G)
        → Dict.get ms name ≡ some m
        → reusable G prev name (signature_in config m api_key) ≡ some b
        → upstream G s m.state_key ≡ some b.provider.value.state

    get-nil : (name : String) → Dict.get {V = ModelConfig} [] name ≡ none
    unfolding Dict.get
    get-nil name = refl

    get-tail :
        (name n : String) (m0 m : ModelConfig) (ms : Dict ModelConfig)
        → Dict.get ms name ≡ none
        → Dict.get ms n ≡ some m
        → Dict.get ((name, m0) ∷ ms) n ≡ some m
    unfolding Dict.get
    get-tail name n m0 m ms e f = ground (arith, str_eq_iff name n, e, f)

    get-head :
        (name : String) (m0 : ModelConfig) (ms : Dict ModelConfig)
        → Dict.get ((name, m0) ∷ ms) name ≡ some m0
    unfolding Dict.get
    get-head name m0 ms = ground (arith, str_eq_iff name name)

    Built-cons :
        (name : String) (m0 : ModelConfig) (b0 : BuiltProvider G) (ms : Dict ModelConfig)
        (acc built : Dict (BuiltProvider G))
        → Dict.get ms name ≡ none
        → Bound config s m0 b0
        → Built ms (Dict.insert acc name b0) built
        → Built ((name, m0) ∷ ms) acc built
    unfolding Dict.get
    Built-cons name m0 b0 ms acc built e v r = record {
      bound = λ n m f. elim (Bool-cases (str_eq name n)) [
        | inl same ↦
            let at = (str_eq_iff name n).0 same in
            let here : Dict.get built n ≡ some b0 = ground (
              arith,
              ap (Dict.get built) at,
              r.other name e,
              Dict.get-insert acc name name b0,
              str_eq_iff name name,
            ) in
            let own : m0 ≡ m = ground (arith, f, same) in
            (b0, here, subst (λ x. Bound config s x b0) own v)
        | inr apart ↦ r.bound n m (ground (arith, f, apart))
      ];
      other = λ n f. ground (arith, r.other n, Dict.get-insert acc name n b0, f);
    }

    build_loop-Built :
        (next : ℕ) (ms : Dict ModelConfig) (acc : Dict (BuiltProvider G))
        → Dict.Distinct ms
        → HasSlots ms
        → Reuses ms
        → (built : Dict (BuiltProvider G)) × (build_loop G config s env prev next ms acc ≡ ok built)
          × Built ms acc built
    unfolding build_loop
    build_loop-Built next [] acc d h t =
        (acc, refl, record { bound = λ name m f. cc (f, get-nil name); other = λ name f. refl })
    build_loop-Built next ((name, m0) ∷ ms) acc d h t =
        let (slot, f) = h name m0 (get-head name m0 ms) in
        let (b0, e0, v0) =
          build_provider-Bound next name m0 slot f (λ b k. t name m0 k b (get-head name m0 ms)) in
        let (built, e, r) =
          build_loop-Built (suc next) ms (Dict.insert acc name b0) d.1
            (λ n m x. h n m (get-tail name n m0 m ms d.0 x))
            (λ n m k b x. t n m k b (get-tail name n m0 m ms d.0 x)) in
        (built, rw e0 e, Built-cons name m0 b0 ms acc built d.0 v0 r)

  -- When every configured model has a slot and whatever is reused holds the right one, all providers
  -- are built: each configured model gets a provider that holds its upstream's slot and is signed as
  -- the model is, and there is no other provider.
  pub build_providers_with-Built :
      (config : RuntimeConfig) (s : StatefulState G) (env : String → Option String)
      (prev : Option (Dict (BuiltProvider G))) (next : ℕ)
      → Dict.Distinct config.models
      → HasSlots config s env prev config.models
      → Reuses config s env prev config.models
      → (built : Dict (BuiltProvider G)) × (build_providers_with G config s env prev next
          ≡ ok built)
        × Built config s env prev config.models [] built
  unfolding build_providers_with
  build_providers_with-Built config s env prev next d h t =
      build_loop-Built config s env prev next config.models [] d h t
