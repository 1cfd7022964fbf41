-- ===== src/Core/Router.antt =====
-- crates/moaray-core/src/router.rs: which path a model name takes.
use moaray.Base.{
  String, str_append, str_eq, str_eq_iff, ◌≡◌, ◌≢◌, inl, inr, refl, subst, Bool, true, false,
  Option, none, some, if◌then◌else◌, Option-cases, Bool-cases,
}
use moaray.Base.Text.{is_empty, strip_prefix, strip_prefix_sound, strip_prefix-append}

pub data RouteTarget : Type 0 where
  passthrough moa unknown : String → RouteTarget

abbrev pub moa_prefix : String
moa_prefix = "moa/"

abbrev pub moa_auto : String
moa_auto = "moa-auto"

route_plain : String → (String → Bool) → RouteTarget
route_plain model is_known_model =
    if str_eq model moa_auto
    then moa "auto"
    else if is_known_model model
    then passthrough model
    else unknown model

route_stripped : Option String → String → (String → Bool) → RouteTarget
unfolding route_plain
route_stripped (some recipe) model is_known_model =
    if is_empty recipe then unknown model else moa recipe
route_stripped none model is_known_model = route_plain model is_known_model

unfoldable pub route : String → (String → Bool) → RouteTarget
unfolding route_stripped
route model is_known_model = route_stripped (strip_prefix moa_prefix model) model is_known_model

-- What a name is, read without the code: a `moa/` name with a recipe behind the slash, the bare
-- prefix, the alias, or a plain name.
pub data Names (known : String → Bool) (model : String) : RouteTarget → Type 0 where
  recipe :
      (r : String)
      → is_empty r ≡ false
      → model ≡ str_append moa_prefix r
      → Names known model (moa r)
  bare_prefix : model ≡ str_append moa_prefix "" → Names known model (unknown model)
  alias : model ≡ moa_auto → Names known model (moa "auto")
  configured :
      ((r : String) → model ≢ str_append moa_prefix r)
      → model ≢ moa_auto
      → known model ≡ true
      → Names known model (passthrough model)
  nowhere :
      ((r : String) → model ≢ str_append moa_prefix r)
      → model ≢ moa_auto
      → known model ≡ false
      → Names known model (unknown model)

empty_of_is_empty : (s : String) → is_empty s ≡ true → s ≡ ""
empty_of_is_empty String.[] h = refl
empty_of_is_empty (String.◌∷◌ c s) h = cc

unprefixed :
    (model r : String) → strip_prefix moa_prefix model ≡ none → model ≢ str_append moa_prefix r
unprefixed model r e h = cc (strip_prefix-append moa_prefix r)

route_plain-Names :
    (model : String) (known : String → Bool)
    → ((r : String) → model ≢ str_append moa_prefix r)
    → Names known model (route_plain model known)
unfolding route_plain
route_plain-Names model known h = elim (Bool-cases (str_eq model moa_auto)) [
  | inl a ↦ rw a (alias ((str_eq_iff _ _).0 a))
  | inr a ↦
      let other : model ≢ moa_auto = λ e. cc ((str_eq_iff model moa_auto).1 e) in
      elim (Bool-cases (known model)) [
        | inl k ↦ rw (a, k) (configured h other k)
        | inr k ↦ rw (a, k) (nowhere h other k)
      ]
]

route_stripped-Names :
    (model r : String) (known : String → Bool)
    → model ≡ str_append moa_prefix r
    → Names known model (route_stripped (some r) model known)
unfolding route_stripped
route_stripped-Names model r known e = elim (Bool-cases (is_empty r)) [
  | inl z ↦
      rw z (bare_prefix (subst (λ t. model ≡ str_append moa_prefix t) (empty_of_is_empty r z) e))
  | inr z ↦ rw z (recipe r z e)
]

-- The route that the code picks is the one that the name describes; a model configured under a
-- `moa/` name or as `moa-auto` is never reached by passthrough.
pub route-Names : (model : String) (known : String → Bool) → Names known model (route model known)
unfolding route
route-Names model known = elim (Option-cases (strip_prefix moa_prefix model)) [
  | inl e ↦ rw e (route_plain-Names model known (λ r. unprefixed model r e))
  | inr (r, e) ↦ rw e (route_stripped-Names model r known (strip_prefix_sound moa_prefix model r e))
]
