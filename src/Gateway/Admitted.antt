-- ===== src/Gateway/Admitted.antt =====
-- crates/moaray/src/app.rs: what is known of a request that the gates let through.

use moaray.Base.{
  ℕ, ◌≡◌, ◌≤◌, refl, sym, subst, ap, ◌∙◌, String, Bool, true, false, not, Option, none, some, List,
  length, leb, Bool-cases, inl, inr, arith,
}
use moaray.Base.Dict
use moaray.Base.Result.{
  Result, ok, err, fail_if, ok_or, passed, not-failed, ok-injective, Result-cases,
}
use moaray.Config.Runtime.{RuntimeConfig}
use moaray.Core.Error.{Error, model_not_allowed, model_not_found, moa_streaming_unsupported}
use moaray.Core.Json.{Json}
use moaray.Core.Router.{RouteTarget, route}
use moaray.Limit.{Governor}
use moaray.State.{Arc, StatefulState, check_key_limit}
use moaray.Registry.{GovernedProvider}
use moaray.Reload.{Runtime}
use moaray.Auth.Bearer.{Text, AuthContext, allows, authenticate, parse_bearer}
use moaray.Providers.Wire.{Wire}
use moaray.Gateway.Gates.{
  Inbound, is_known_model, read_body, Routed, passthrough, moa, wanted, decide, body_gates, caller,
  after_caller, pre_route,
}

module _ (G : Governor) (J : Json) (W : Wire J) (T : Text) where
  -- The decision carries the caller, the body and the runtime of the request, and goes where its model
  -- name is routed to: to a published provider, or to a recipe, which is never streamed.
  pub data Carries (rt : Runtime G) (auth : AuthContext) (raw : List ℕ) (want : String × Bool)
      : Routed G J W T → Type 0 where
    to_provider :
        (model : String) (provider : Arc (GovernedProvider G))
        → route want.0 (is_known_model rt.config) ≡ RouteTarget.passthrough model
        → Dict.get rt.providers model ≡ some provider
        → Carries rt auth raw want (passthrough auth raw model want.1 provider rt)
    to_recipe :
        (recipe : String)
        → route want.0 (is_known_model rt.config) ≡ RouteTarget.moa recipe
        → want.1 ≡ false
        → Carries rt auth raw want (moa auth.key_id recipe raw want.0 rt)

  pub record Admitted (rt : Runtime G) (live : RuntimeConfig) (s : StatefulState G) (now : ℕ)
      (req : Inbound) (routed : Routed G J W T) : Type 0 where
    pub token : String
    pub auth : AuthContext
    pub raw : List ℕ
    pub want : String × Bool
    pub bearer : parse_bearer T req.authorization ≡ ok token
    pub authenticated : authenticate T rt.config.keys token ≡ ok auth
    pub within_limit : (check_key_limit G s auth.key_id now).1 ≡ ok tt
    pub body : req.body ≡ some raw
    pub bounded : length raw ≤ live.server.max_body_bytes
    pub asks : wanted G J W T raw ≡ ok want
    pub allowed : allows auth want.0 ≡ true
    pub carries : Carries rt auth raw want routed

  read_body-bounded :
      (body : Option (List ℕ)) (limit : ℕ) {raw : List ℕ}
      → read_body body limit ≡ ok raw
      → (body ≡ some raw) × (length raw ≤ limit)
  unfolding read_body
  read_body-bounded none limit h = cc
  read_body-bounded (some bytes) limit h = elim (Bool-cases (leb (length bytes) limit)) [
    | inl fits ↦ ground arith
    | inr over ↦ ground arith
  ]

  decide-Carries :
      (rt : Runtime G) (auth : AuthContext) (raw : List ℕ) (want : String × Bool)
      (target : RouteTarget) {routed : Routed G J W T}
      → route want.0 (is_known_model rt.config) ≡ target
      → decide G J W T rt auth raw want target ≡ ok routed
      → Carries rt auth raw want routed
  unfolding decide
  decide-Carries rt auth raw want (RouteTarget.passthrough model) r h =
      let p = passed _ (ok_or (Dict.get rt.providers model) (model_not_found model)) h in
      subst (Carries rt auth raw want) (ok-injective p.second)
        (to_provider model p.value r (named _ _ p.first))
    where
      named : {A : Type 0} (o : Option A) (e : Error) {a : A} → ok_or o e ≡ ok a → o ≡ some a
      named none e x = cc
      named (some b) e x = ap some (ok-injective x)
  decide-Carries rt auth raw want (RouteTarget.moa recipe) r h =
      let p = passed _ (fail_if want.1 moa_streaming_unsupported) h in
      subst (Carries rt auth raw want) (ok-injective p.second)
        (to_recipe recipe r (not-failed want.1 moa_streaming_unsupported p.first))
  decide-Carries rt auth raw want (RouteTarget.unknown model) r h = cc

  -- A request that is routed comes with a bearer token that authenticates a configured key, is within
  -- the rate limit of that key, has a body that fits the live bound and names a model that the key
  -- may use, and goes to the published provider or the recipe that this name stands for, on the
  -- runtime that it was authenticated against.
  pub pre_route-Admitted :
      (rt : Runtime G) (live : RuntimeConfig) (s : StatefulState G) (now : ℕ) (req : Inbound)
      {routed : Routed G J W T}
      → (pre_route G J W T rt live s now req).1 ≡ ok routed
      → Admitted rt live s now req routed
  unfolding pre_route caller body_gates
  pre_route-Admitted rt live s now req {routed} h = elim (Result-cases (caller G J W T rt req)) [
    | inr (e, refused) ↦
        absurd
          (err-ne-ok (sym (ap (λ c. (after_caller G J W T rt live s now req c).1) refused) ∙ h))
    | inl (auth, known) ↦
        let who =
          passed (λ token. authenticate T rt.config.keys token) (parse_bearer T req.authorization)
            known in
        let limit =
          passed (λ u. body_gates G J W T rt live auth req) (check_key_limit G s auth.key_id now).1
            (sym (ap (λ c. (after_caller G J W T rt live s now req c).1) known) ∙ h) in
        let body = passed _ (read_body req.body live.server.max_body_bytes) limit.second in
        let asks = passed _ (wanted G J W T body.value) body.second in
        let may =
          passed _ (fail_if (not (allows auth asks.value.0)) (model_not_allowed asks.value.0))
            asks.second in
        let fits = read_body-bounded req.body live.server.max_body_bytes body.first in
        record {
          token = who.value;
          auth = auth;
          raw = body.value;
          want = asks.value;
          bearer = who.first;
          authenticated = who.second;
          within_limit = limit.first;
          body = fits.0;
          bounded = fits.1;
          asks = asks.first;
          allowed = un_not (not-failed (not (allows auth asks.value.0)) _ may.first);
          carries = decide-Carries rt auth body.value asks.value _ refl may.second;
        }
  ]
    where
      err-ne-ok : {A : Type 0} {e : Error} {a : A} → ◌≡◌ {A = Result A Error} (err e) (ok a) → ⊥
      err-ne-ok x = cc

      un_not : {b : Bool} → not b ≡ false → b ≡ true
      un_not {b} x = ground arith
