-- ===== src/Gateway/Gates.antt =====
-- crates/moaray/src/app.rs: `pre_route`, the gates that a request passes before it is executed, and
-- `list_models`.
use moaray.Base.{
  ℕ, String, Bool, false, not, Option, none, some, List, [], ◌∷◌, length, leb, is_some, unwrap_or,
  if◌then◌else◌, keep, map,
}
use moaray.Base.Dict
use moaray.Base.Dict.{Dict}
use moaray.Base.Result.{Result, ok, err, ◌>>=◌, ◌>>◌, fail_if, ok_or}
use moaray.Config.Runtime.{RuntimeConfig}
use moaray.Core.Error.{
  Error, model_not_allowed, model_not_found, payload_too_large, bad_request,
  moa_streaming_unsupported,
}
use moaray.Core.Json.{Json}
use moaray.Core.Router.{RouteTarget, route}
use moaray.Limit.{Governor}
use moaray.State.{Arc, StatefulState, check_key_limit}
use moaray.Registry.{GovernedProvider}
use moaray.Reload.{Runtime}
use moaray.Auth.Bearer.{Text, AuthContext, allows, authenticate, parse_bearer}
use moaray.Providers.Wire.{Wire}
use moaray.Providers.Status.{or_else, ◌>>=?◌}
use moaray.Providers.Request.{text_at, fields}

-- What comes in: the `Authorization` header, and the body unless it breaks off.
pub record Inbound : Type 0 where
  pub authorization : Option String
  pub body : Option (List ℕ)

-- `is_known_model`: a model of the configuration.
unfoldable pub is_known_model : RuntimeConfig → String → Bool
is_known_model config model = is_some (Dict.get config.models model)

-- `axum::body::to_bytes` with a limit.
unfoldable pub read_body : Option (List ℕ) → ℕ → Result (List ℕ) Error
read_body none limit = err payload_too_large
read_body (some raw) limit = if leb (length raw) limit then ok raw else err payload_too_large

module _ (G : Governor) (J : Json) (W : Wire J) (T : Text) where
  pub data Routed : Type 0 where
    passthrough :
        AuthContext → List ℕ → String → Bool → Arc (GovernedProvider G) → Runtime G → Routed
    moa : String → String → List ℕ → String → Runtime G → Routed

  -- What the body says: the model and whether to stream.
  unfoldable pub wanted : List ℕ → Result (String × Bool) Error
  wanted raw = do
    parsed ←
        or_else (W.from_slice raw) (λ e. bad_request (Prim.Native.String.◌++◌ "invalid JSON: " e))
    model ← ok_or (text_at J parsed "model") (bad_request "missing `model`")
    ok (model, unwrap_or (J.field parsed "stream" >>=? J.as_bool) false)

  -- The decision for the target of a model name.
  unfoldable pub decide :
      Runtime G → AuthContext → List ℕ → String × Bool → RouteTarget → Result Routed Error
  decide rt auth raw want (RouteTarget.passthrough model) =
      ok_or (Dict.get rt.providers model) (model_not_found model) >>= λ provider.
      ok (passthrough auth raw model want.1 provider rt)
  decide rt auth raw want (RouteTarget.moa recipe) =
      fail_if want.1 moa_streaming_unsupported >> ok (moa auth.key_id recipe raw want.0 rt)
  decide rt auth raw want (RouteTarget.unknown model) = err (model_not_found model)

  -- The gates behind the rate limit. The body is bounded by the configuration that is live then.
  unfoldable pub body_gates :
      Runtime G → RuntimeConfig → AuthContext → Inbound → Result Routed Error
  unfolding read_body wanted decide
  body_gates rt live auth req = do
    raw ← read_body req.body live.server.max_body_bytes
    want ← wanted raw
    fail_if (not (allows auth want.0)) (model_not_allowed want.0)
    decide rt auth raw want (route want.0 (is_known_model rt.config))

  -- The gates before it: who is calling.
  unfoldable pub caller : Runtime G → Inbound → Result AuthContext Error
  caller rt req = do token ← parse_bearer T req.authorization; authenticate T rt.config.keys token

  abbrev pub after_limit :
      (AuthContext → Result Routed Error)
      → AuthContext
      → StatefulState G × Result (Unit {0}) Error
      → StatefulState G × Result Routed Error
  after_limit rest auth (s, answer) = (s, answer >> rest auth)

  abbrev pub after_caller :
      Runtime G
      → RuntimeConfig
      → StatefulState G
      → ℕ
      → Inbound
      → Result AuthContext Error
      → StatefulState G × Result Routed Error
  after_caller rt live s now req (err e) = (s, err e)
  after_caller rt live s now req (ok auth) =
      after_limit (λ a. body_gates rt live a req) auth (check_key_limit G s auth.key_id now)

  unfoldable pub pre_route :
      Runtime G
      → RuntimeConfig
      → StatefulState G
      → ℕ
      → Inbound
      → StatefulState G × Result Routed Error
  unfolding caller body_gates
  pre_route rt live s now req = after_caller rt live s now req (caller rt req)

  abbrev listed_model : String → J.Value
  listed_model m = J.object (
      fields
        (("id", J.string m) ∷ ("object", J.string "model") ∷ ("owned_by", J.string "moaray") ∷ []))

  abbrev keys_of : {V : Type 0} → Dict V → List String
  keys_of [] = []
  keys_of ((k, v) ∷ m) = k ∷ keys_of m

  unfoldable pub list_models : Runtime G → Inbound → Result (List J.Value) Error
  unfolding caller fields
  list_models rt req = do
    auth ← caller rt req
    ok (map listed_model (keep (allows auth) (keys_of rt.config.models)))
