-- ===== src/State/Keys.antt =====
-- crates/moaray/src/runtime.rs: what a reload does to the buckets of the keys.
use moaray.Base.{
  ℕ, String, str_eq, str_eq_iff, ◌≡◌, refl, ap, ◌∙◌, ◌⊎◌, true, ◌&&◌, Option, none, some, List, [],
  ◌∷◌, any, All, if◌then◌else◌, arith, is_some, Option-cases, inl, inr, Bool-cases,
}
use moaray.Base.Dict
use moaray.Config.Runtime.{RateLimit, KeyConfig, RuntimeConfig}
use moaray.Config.Rules.{rate_limit_eq}
use moaray.Limit.{Governor, TokenBucket, new_bucket}
use moaray.State.{
  Arc, StatefulState, install_key, install_keys, install_key_limiters, live_key,
  retain_key_limiters,
}

-- The limit of a key: that of the last limited entry under its id.
abbrev pub key_limit : List KeyConfig → String → Option RateLimit
key_limit [] id = none
key_limit (k ∷ ks) id = elim (key_limit ks id) [
  | some l ↦ some l
  | none ↦ if str_eq k.id id then k.rate_limit else none
]

-- The entries under an id, so far as they are limited, have the limit `l`.
abbrev pub Agree : String → RateLimit → List KeyConfig → Type 0
Agree id l = All (λ (k : KeyConfig). k.id ≡ id → (k.rate_limit ≡ none) ⊎ (k.rate_limit ≡ some l))

live_key-key_limit :
    (ks : List KeyConfig) (id : String)
    → any (λ (k : KeyConfig). is_some k.rate_limit && str_eq k.id id) ks ≡ is_some (key_limit ks id)
live_key-key_limit [] id = refl
live_key-key_limit (k ∷ ks) id = ground (arith, live_key-key_limit ks id)

rate_limit_eq_sound : (a b : RateLimit) → rate_limit_eq (some a) (some b) ≡ true → a ≡ b
unfolding rate_limit_eq
rate_limit_eq_sound a b h = ground arith

rate_limit_eq_refl : (a : RateLimit) → rate_limit_eq (some a) (some a) ≡ true
unfolding rate_limit_eq
rate_limit_eq_refl a = ground arith

module _ (G : Governor) where
  -- A bucket under `id` with the limit `l`.
  pub record Bucketed (s : StatefulState G) (id : String) (l : RateLimit) : Type 0 where
    pub bucket : Arc (TokenBucket G)
    pub found : Dict.get s.per_key id ≡ some bucket
    pub limited : bucket.value.limit ≡ l

  module _ (k : KeyConfig) (s : StatefulState G) (n : ℕ) (id : String) where
    abbrev fresh : RateLimit → Arc (TokenBucket G)
    fresh l = record { address = s.next; value = new_bucket G l }

    install_key-leaves :
        (if str_eq k.id id then k.rate_limit else none) ≡ none
        → Dict.get (install_key G k (s, n)).0.per_key id ≡ Dict.get s.per_key id
    unfolding install_key
    install_key-leaves e = elim (Option-cases k.rate_limit) [
      | inl free ↦ ground (arith, free)
      | inr (l, limited) ↦ ground (arith, limited, e, Dict.get-insert s.per_key k.id id (fresh l))
    ]

    install_key-Bucketed :
        (l : RateLimit)
        → k.id ≡ id
        → k.rate_limit ≡ some l
        → Bucketed (install_key G k (s, n)).0 id l
    unfolding install_key new_bucket
    install_key-Bucketed l e limited = elim (Option-cases (Dict.get s.per_key id)) [
      | inl gone ↦ record {
        bucket = fresh l;
        found = ground (
          arith,
          e,
          limited,
          str_eq_iff k.id id,
          Dict.get-insert s.per_key k.id id (fresh l),
          ap (Dict.get s.per_key) e,
          gone,
        );
        limited = refl;
      }
      | inr (a, here) ↦ elim (Bool-cases (rate_limit_eq (some a.value.limit) (some l))) [
        | inl same ↦ record {
          bucket = a;
          found = ground (
            arith,
            e,
            limited,
            str_eq_iff k.id id,
            Dict.get-insert s.per_key k.id id (fresh l),
            ap (Dict.get s.per_key) e,
            here,
            same,
          );
          limited = rate_limit_eq_sound a.value.limit l same;
        }
        | inr changed ↦ record {
          bucket = fresh l;
          found = ground (
            arith,
            e,
            limited,
            str_eq_iff k.id id,
            Dict.get-insert s.per_key k.id id (fresh l),
            ap (Dict.get s.per_key) e,
            here,
            changed,
          );
          limited = refl;
        }
      ]
    ]

    install_key-keeps :
        (a : Arc (TokenBucket G))
        → (k.id ≡ id → (k.rate_limit ≡ none) ⊎ (k.rate_limit ≡ some a.value.limit))
        → Dict.get s.per_key id ≡ some a
        → Dict.get (install_key G k (s, n)).0.per_key id ≡ some a
    unfolding install_key
    install_key-keeps a same f = elim (Option-cases k.rate_limit) [
      | inl free ↦ ground (arith, free, f)
      | inr (l, limited) ↦ ground (
        arith,
        limited,
        f,
        same,
        str_eq_iff k.id id,
        rate_limit_eq_refl a.value.limit,
        Dict.get-insert s.per_key k.id id (fresh l),
      )
    ]

  install_keys-leaves :
      (ks : List KeyConfig) (s : StatefulState G) (n : ℕ) (id : String)
      → key_limit ks id ≡ none
      → Dict.get (install_keys G ks (s, n)).0.per_key id ≡ Dict.get s.per_key id
  unfolding install_keys
  install_keys-leaves [] s n id h = refl
  install_keys-leaves (k ∷ ks) s n id h =
      let (t, m) = install_key G k (s, n) in
      install_keys-leaves ks t m id (ground (arith, h))
      ∙ install_key-leaves k s n id (ground (arith, h))

  install_keys-Bucketed :
      (ks : List KeyConfig) (s : StatefulState G) (n : ℕ) (id : String) (l : RateLimit)
      → key_limit ks id ≡ some l
      → Bucketed (install_keys G ks (s, n)).0 id l
  unfolding install_keys
  install_keys-Bucketed [] s n id l h = cc
  install_keys-Bucketed (k ∷ ks) s n id l h =
      let (t, m) = install_key G k (s, n) in
      elim (Option-cases (key_limit ks id)) [
        | inl last ↦
            let now =
              install_key-Bucketed k s n id l ((str_eq_iff k.id id).0 (ground (arith, h, last)))
                (ground (arith, h, last)) in
            record {
              bucket = now.bucket;
              found = install_keys-leaves ks t m id last ∙ now.found;
              limited = now.limited;
            }
        | inr (x, later) ↦ install_keys-Bucketed ks t m id l (ground (arith, h, later))
      ]

  install_keys-keeps :
      (ks : List KeyConfig) (s : StatefulState G) (n : ℕ) (id : String) (a : Arc (TokenBucket G))
      → Agree id a.value.limit ks
      → Dict.get s.per_key id ≡ some a
      → Dict.get (install_keys G ks (s, n)).0.per_key id ≡ some a
  unfolding install_keys
  install_keys-keeps [] s n id a v f = f
  install_keys-keeps (k ∷ ks) s n id a v f =
      let (t, m) = install_key G k (s, n) in
      install_keys-keeps ks t m id a v.1 (install_key-keeps k s n id a v.0 f)

  -- The state of the buckets behind a reload: `install_key_limiters`, then `retain_key_limiters`.
  abbrev pub reconcile_keys : StatefulState G → RuntimeConfig → StatefulState G
  reconcile_keys s config = (retain_key_limiters G (install_key_limiters G s config).0 config).0

  -- What a reload promises of the buckets before and after.
  pub record KeysReconciled (s after : StatefulState G) (config : RuntimeConfig) : Type 0 where
    pub bucketed :
        (id : String) (l : RateLimit) → key_limit config.keys id ≡ some l → Bucketed after id l
    pub kept :
        (id : String) (a : Arc (TokenBucket G))
        → key_limit config.keys id ≡ some a.value.limit
        → Agree id a.value.limit config.keys
        → Dict.get s.per_key id ≡ some a
        → Dict.get after.per_key id ≡ some a
    pub dropped : (id : String) → key_limit config.keys id ≡ none → Dict.get after.per_key id ≡ none

  retained :
      (s : StatefulState G) (config : RuntimeConfig) (id : String)
      → Dict.get (reconcile_keys s config).per_key id ≡ (
          if is_some (key_limit config.keys id)
          then Dict.get (install_keys G config.keys (s, 0)).0.per_key id
          else none)
  unfolding retain_key_limiters install_key_limiters live_key
  retained s config id =
      rw (← live_key-key_limit config.keys id)
        (Dict.get-retain (live_key config) (install_keys G config.keys (s, 0)).0.per_key id)

  -- After a reload every limited key has a bucket with its limit, that of its last entry; a bucket that
  -- had the limit before is the same bucket, with what it has seen, as long as the limited entries under
  -- its id agree; and a key that is not limited has none.
  pub reconcile_keys-KeysReconciled :
      (s : StatefulState G) (config : RuntimeConfig)
      → KeysReconciled s (reconcile_keys s config) config
  reconcile_keys-KeysReconciled s config = record {
    bucketed = λ id l h.
        let b = install_keys-Bucketed config.keys s 0 id l h in
        record {
          bucket = b.bucket;
          found = ground (arith, retained s config id, h, b.found);
          limited = b.limited;
        };
    kept = λ id a h v f.
        ground (arith, retained s config id, h, install_keys-keeps config.keys s 0 id a v f);
    dropped = λ id h. ground (arith, retained s config id, h);
  }
