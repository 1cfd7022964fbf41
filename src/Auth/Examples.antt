-- ===== src/Auth/Examples.antt =====
-- Witnesses and tests of the authentication, over texts whose bytes are the numbers of their characters.
use Prim.Native.Char.{code}
use text.Mathlib.TextEquality.{Char-path}
use mathlib.Core.Path.{ap₂}
use moaray.Base.{ℕ, ◌≡◌, refl, ◌⊎◌, String, true, none, List, [], ◌∷◌}
use moaray.Base.Result.{ok, err}
use moaray.Base.Text.{is_empty}
use moaray.Config.Runtime.{plain, KeyConfig}
use moaray.Core.Error.{invalid_api_key}
use moaray.Auth.Bearer.{Text, AuthContext, secret_matches, authenticate}
use moaray.Auth.First.{FirstKey, Nobody, authenticate-cases}

abbrev pub codes : String → List ℕ
codes String.[] = []
codes (String.◌∷◌ c s) = code c ∷ codes s

pub codes-injective : (s t : String) → codes s ≡ codes t → s ≡ t
codes-injective String.[] String.[] e = refl
codes-injective String.[] (String.◌∷◌ d t) e = cc
codes-injective (String.◌∷◌ c s) String.[] e = cc
codes-injective (String.◌∷◌ c s) (String.◌∷◌ d t) e =
    ap₂ String.◌∷◌ (Char-path c d (cc)) (codes-injective s t (cc))

abbrev pub plain_text : Text
plain_text = record {
  trim = λ s. s;
  as_bytes = codes;
  as_bytes-injective = λ {s} {t} e. codes-injective s t e;
}

abbrev keys : List KeyConfig
keys =
    record { id = "team"; secret = plain "s3cret"; allow_models = "m" ∷ []; rate_limit = none } ∷ []

authenticate-cases_example :
    ((authenticate plain_text keys "s3cret" ≡ err invalid_api_key)
      × ((is_empty "s3cret" ≡ true) ⊎ Nobody plain_text keys "s3cret"))
    ⊎ ((auth : AuthContext) × ((authenticate plain_text keys "s3cret" ≡ ok auth)
          × FirstKey plain_text keys "s3cret" auth))
authenticate-cases_example = authenticate-cases plain_text keys "s3cret"

authenticate_test :
    authenticate plain_text keys "s3cret" ≡ ok (record { key_id = "team"; allow_models = "m" ∷ [] })
unfolding authenticate secret_matches
authenticate_test = refl
