-- ===== src/Auth/Bearer.antt =====
-- crates/moaray/src/auth.rs: the bearer token of a request and the key that it opens.
use moaray.Base.{
  ℕ, ◌≡◌, String, str_eq, Bool, not, ◌&&◌, if◌then◌else◌, Option, none, some, List, [], ◌∷◌, any,
}
use moaray.Base.Result.{Result, ok, err}
use moaray.Base.Text.{is_empty, strip_prefix}
use moaray.Config.Runtime.{KeySecret, plain, sha256, KeyConfig}
use moaray.Core.Error.{Error, invalid_api_key}
use moaray.Auth.Sha256.{digest}
use moaray.Auth.Compare.{ct_eq}

-- `str::trim` and `str::as_bytes`: different texts have different bytes.
pub record Text : Type 0 where
  pub trim : String → String
  pub as_bytes : String → List ℕ
  pub as_bytes-injective : {s t : String} → as_bytes s ≡ as_bytes t → s ≡ t

pub record AuthContext : Type 0 where
  pub key_id : String
  pub allow_models : List String

unfoldable pub allows : AuthContext → String → Bool
allows auth model = any (λ m. str_eq m model) auth.allow_models

module _ (T : Text) where
  -- Whether a secret is the presented token, given the token and its digest.
  unfoldable pub secret_matches : String → String → KeySecret → Bool
  unfolding ct_eq
  secret_matches presented hash (plain p) =
      not (is_empty p) && ct_eq (T.as_bytes p) (T.as_bytes presented)
  secret_matches presented hash (sha256 h) = ct_eq (T.as_bytes h) (T.as_bytes hash)

  unfoldable pub first_match : List KeyConfig → String → String → Result AuthContext Error
  first_match [] presented hash = err invalid_api_key
  first_match (k ∷ ks) presented hash =
      let later = first_match ks presented hash in
      if secret_matches presented hash k.secret
      then ok (record { key_id = k.id; allow_models = k.allow_models })
      else later

  unfoldable pub authenticate : List KeyConfig → String → Result AuthContext Error
  unfolding first_match
  authenticate keys presented =
      let token = T.trim presented in
      let found = first_match keys token (digest (T.as_bytes token)) in
      if is_empty token then err invalid_api_key else found

  abbrev token_of : Option String → Result String Error
  token_of none = err invalid_api_key
  token_of (some rest) = if is_empty (T.trim rest) then err invalid_api_key else ok (T.trim rest)

  abbrev either_prefix : Option String → Option String → Option String
  either_prefix (some rest) other = some rest
  either_prefix none other = other

  unfoldable pub parse_bearer : Option String → Result String Error
  parse_bearer none = err invalid_api_key
  parse_bearer (some h) =
      token_of (either_prefix (strip_prefix "Bearer " h) (strip_prefix "bearer " h))
