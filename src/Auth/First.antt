-- ===== src/Auth/First.antt =====
-- crates/moaray/src/auth.rs: who a token authenticates.
use moaray.Base.{
  ◌≡◌, refl, sym, ap, ◌∙◌, ◌↔◌, ◌⊎◌, inl, inr, String, true, false, not, ◌&&◌, List, [], ◌∷◌, ◌++◌,
  All, Bool-cases, arith,
}
use moaray.Base.Result.{ok, err}
use moaray.Base.Text.{is_empty}
use moaray.Config.Runtime.{KeySecret, plain, sha256, KeyConfig}
use moaray.Core.Error.{invalid_api_key}
use moaray.Auth.Sha256.{digest}
use moaray.Auth.Compare.{ct_eq, ct_eq_iff}
use moaray.Auth.Bearer.{Text, AuthContext, secret_matches, first_match, authenticate}

true-ne-false : true ≡ false → ⊥
true-ne-false h = cc

module _ (T : Text) where
  -- The token is the secret, or the secret is the token's digest.
  abbrev pub Opens : String → KeySecret → Type 0
  Opens token (plain p) = p ≡ token
  Opens token (sha256 h) = h ≡ digest (T.as_bytes token)

  -- The key that the context stands for, and that no key before it opens.
  pub record FirstKey (keys : List KeyConfig) (token : String) (auth : AuthContext) : Type 0 where
    pub before : List KeyConfig
    pub key : KeyConfig
    pub after : List KeyConfig
    pub split : keys ≡ before ++ key ∷ after
    pub opens : Opens token key.secret
    pub earlier : All (λ k. Opens token k.secret → ⊥) before
    pub key_id : auth.key_id ≡ key.id
    pub allow_models : auth.allow_models ≡ key.allow_models

  bytes_iff : (s t : String) → (ct_eq (T.as_bytes s) (T.as_bytes t) ≡ true) ↔ (s ≡ t)
  bytes_iff s t =
      (λ h. T.as_bytes-injective ((ct_eq_iff _ _).0 h), λ e. (ct_eq_iff _ _).1 (ap T.as_bytes e))

  secret_matches_iff :
      (token : String) (s : KeySecret)
      → is_empty token ≡ false
      → (secret_matches T token (digest (T.as_bytes token)) s ≡ true) ↔ Opens token s
  unfolding secret_matches
  secret_matches_iff token (sha256 h) e = bytes_iff h (digest (T.as_bytes token))
  secret_matches_iff token (plain p) e = (sound, complete)
    where
      sound : not (is_empty p) && ct_eq (T.as_bytes p) (T.as_bytes token) ≡ true → p ≡ token
      sound h = (bytes_iff p token).0 (ground arith)

      complete : p ≡ token → not (is_empty p) && ct_eq (T.as_bytes p) (T.as_bytes token) ≡ true
      complete same = rw (same, e, (bytes_iff token token).1 refl) refl

  later_key :
      (k : KeyConfig) {ks : List KeyConfig} {token : String} {auth : AuthContext}
      → (Opens token k.secret → ⊥)
      → FirstKey ks token auth
      → FirstKey (k ∷ ks) token auth
  later_key k closed f = record {
    before = k ∷ f.before;
    key = f.key;
    after = f.after;
    split = ap (λ x. k ∷ x) f.split;
    opens = f.opens;
    earlier = (closed, f.earlier);
    key_id = f.key_id;
    allow_models = f.allow_models;
  }

  abbrev pub Nobody : List KeyConfig → String → Type 0
  Nobody keys token = All (λ k. Opens token k.secret → ⊥) keys

  first_match-cases :
      (keys : List KeyConfig) (token : String)
      → is_empty token ≡ false
      → ((first_match T keys token (digest (T.as_bytes token)) ≡ err invalid_api_key)
          × Nobody keys token)
        ⊎ ((auth : AuthContext) × ((first_match T keys token (digest (T.as_bytes token)) ≡ ok auth)
              × FirstKey keys token auth))
  unfolding first_match
  first_match-cases [] token e = inl (refl, tt)
  first_match-cases (k ∷ ks) token e =
      elim (Bool-cases (secret_matches T token (digest (T.as_bytes token)) k.secret)) [
        | inl found ↦ inr (
          record { key_id = k.id; allow_models = k.allow_models },
          (
            rw found refl,
            record {
              before = [];
              key = k;
              after = ks;
              split = refl;
              opens = (secret_matches_iff token k.secret e).0 found;
              earlier = tt;
              key_id = refl;
              allow_models = refl;
            },
          ),
        )
        | inr other ↦ elim (first_match-cases ks token e) [
          | inl none_later ↦ inl (rw other none_later.0, (unopened other, none_later.1))
          | inr (auth, later) ↦ inr (auth, (rw other later.0, later_key k (unopened other) later.1))
        ]
      ]
    where
      unopened :
          secret_matches T token (digest (T.as_bytes token)) k.secret ≡ false
          → Opens token k.secret
          → ⊥
      unopened other o = true-ne-false (sym ((secret_matches_iff token k.secret e).1 o) ∙ other)

  -- A presented token, trimmed, either authenticates as the first key that it opens, with that key's id
  -- and allowlist, where a plain secret is opened by itself and a digest by the texts with that
  -- SHA-256; or it is refused as an invalid key, and then it is empty or opens no key.
  pub authenticate-cases :
      (keys : List KeyConfig) (presented : String)
      → ((authenticate T keys presented ≡ err invalid_api_key)
          × ((is_empty (T.trim presented) ≡ true) ⊎ Nobody keys (T.trim presented)))
        ⊎ ((auth : AuthContext) × ((authenticate T keys presented ≡ ok auth)
              × FirstKey keys (T.trim presented) auth))
  unfolding authenticate
  authenticate-cases keys presented = elim (Bool-cases (is_empty (T.trim presented))) [
    | inl empty ↦ inl (rw empty refl, inl empty)
    | inr full ↦ elim (first_match-cases keys (T.trim presented) full) [
      | inl refused ↦ inl (rw full refused.0, inr refused.1)
      | inr (auth, found) ↦ inr (auth, (rw full found.0, found.1))
    ]
  ]
