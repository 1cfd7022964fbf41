-- ===== src/Gateway/Dispatch/Attributed.antt =====
-- crates/moaray/src/app.rs: whose rows are booked.
use moaray.Base.{
  ℕ, String, Bool, ◌≡◌, refl, ◌∙◌, Bool-cases, inl, inr, Option, List, [], ◌∷◌, All, All-map,
  All-append,
}
use moaray.Base.Int.{ℤ}
use moaray.Base.Result.{Result, ok, err, Result-cases}
use moaray.Config.Runtime.{RuntimeConfig}
use moaray.Core.Error.{Error}
use moaray.Core.Json.{Json}
use moaray.Core.Types.{ChatRequest, ChatResponse}
use moaray.Core.Usage.{UsageArm, proposer, aggregator, UsageRecord}
use moaray.Limit.{Governor}
use moaray.State.{StatefulState}
use moaray.Reload.{Runtime}
use moaray.Auth.Bearer.{Text, AuthContext, parse_bearer, authenticate}
use moaray.Moa.Arm.{ArmOutcome}
use moaray.Moa.Orchestrator.{MoaRun}
use moaray.Providers.Wire.{Wire}
use moaray.Gateway.Accounting.{book_moa_arm, book_arms, book_run, book_passthrough, listed}
use moaray.Gateway.Gates.{Inbound, Routed, passthrough, moa, caller, pre_route}
use moaray.Gateway.Admitted.{Carries, to_provider, to_recipe, pre_route-Admitted}
use moaray.Gateway.Handlers.{RawProvider, Execution, within, upstream_call, row_of, run_moa}
use moaray.Gateway.Handlers
use moaray.Gateway.Dispatch.{
  Live, Moment, rejected, serve_passthrough, serve_run, Backends, orchestrate, serve_request,
  execute, respond, chat_completions,
}

-- The rows belong to a request and to the key of its caller.
abbrev pub Belong : String → String → List UsageRecord → Type 0
Belong request_id key_id =
    All (λ (row : UsageRecord). (row.request_id ≡ request_id) × (row.caller_key_id ≡ key_id))

book_arms-Belong :
    (config : RuntimeConfig) (request_id key_id : String) (ts : ℤ) (kind : UsageArm)
    (arms : List ArmOutcome)
    → Belong request_id key_id (book_arms config request_id key_id ts kind arms)
unfolding book_arms book_moa_arm
book_arms-Belong config request_id key_id ts kind [] = tt
book_arms-Belong config request_id key_id ts kind (a ∷ arms) =
    ((refl, refl), book_arms-Belong config request_id key_id ts kind arms)

module _ (J : Json) where
  passthrough-Belong :
      (config live : RuntimeConfig) (provider : RawProvider) (x : Execution)
      → Belong x.request_id x.caller_key_id (serve_passthrough J config live provider x).rows
  unfolding serve_passthrough Handlers.passthrough book_passthrough
  passthrough-Belong config live provider x =
      elim (Result-cases (within live.server.request_timeout_ms (upstream_call live provider x))) [
        | inr (e, failed) ↦ rw failed tt
        | inl (resp, answered) ↦ elim (Bool-cases x.stream) [
          | inl streams ↦ rw (answered, streams) tt
          | inr whole ↦ rw (answered, whole) ((refl, refl), tt)
        ]
      ]

  run-Belong :
      (to_value : ChatResponse J → Option J.Value) (config live : RuntimeConfig) (x : Execution)
      (run : Result (MoaRun J) Error)
      → Belong x.request_id x.caller_key_id (serve_run J to_value config live x run).rows
  unfolding serve_run run_moa book_run
  run-Belong to_value config live x (err e) = tt
  run-Belong to_value config live x (ok run) =
      All-append _ (book_arms config x.request_id x.caller_key_id x.unix_ms proposer run.proposers)
        _ (book_arms-Belong config x.request_id x.caller_key_id x.unix_ms proposer run.proposers)
        (book_arms-Belong config x.request_id x.caller_key_id x.unix_ms aggregator
          (listed run.aggregator))

module _ (G : Governor) (J : Json) (W : Wire J) (T : Text) where
  -- The key that a routed request is booked on.
  abbrev key_of : Routed G J W T → String
  key_of (passthrough auth raw model stream provider rt) = auth.key_id
  key_of (moa key_id recipe raw model rt) = key_id

  request-Belong :
      (b : Backends G J W T) (rt : Runtime G) (live : Live) (x : Execution) (recipe : String)
      (r : Result (ChatRequest J) String)
      → Belong x.request_id x.caller_key_id (serve_request G J W T b rt live x recipe r).rows
  unfolding serve_request
  request-Belong b rt live x recipe (err text) = tt
  request-Belong b rt live x recipe (ok request) =
      run-Belong J b.to_value rt.config live.at_reply x
        (orchestrate G J W T b rt live.at_call x recipe request)

  execute-Belong :
      (b : Backends G J W T) (live : Live) (m : Moment) (routed : Routed G J W T)
      → Belong m.request_id (key_of routed) (execute G J W T b live m routed).rows
  unfolding execute
  execute-Belong b live m (passthrough auth raw model stream provider rt) =
      passthrough-Belong J rt.config live.at_call (b.raw provider) _
  execute-Belong b live m (moa key_id recipe raw model rt) =
      request-Belong b rt live _ recipe (b.parse_request raw)

  key_of-carried :
      {rt : Runtime G} {auth : AuthContext} {raw : List ℕ} {want : String × Bool}
      {routed : Routed G J W T}
      → Carries G J W T rt auth raw want routed
      → key_of routed ≡ auth.key_id
  key_of-carried (to_provider model provider r found) = refl
  key_of-carried (to_recipe recipe r whole) = refl

  caller-known :
      (rt : Runtime G) (req : Inbound) {token : String} {auth : AuthContext}
      → parse_bearer T req.authorization ≡ ok token
      → authenticate T rt.config.keys token ≡ ok auth
      → caller G J W T rt req ≡ ok auth
  unfolding caller
  caller-known rt req p a = rw (p, a, caller) refl

  -- Every row that a request books carries its id and the key that its bearer token authenticates, on
  -- the runtime that it is routed by.
  pub chat_completions-Belong :
      (b : Backends G J W T) (rt : Runtime G) (live : Live) (m : Moment) (s : StatefulState G)
      (req : Inbound)
      → All
          (λ (row : UsageRecord).
            (row.request_id ≡ m.request_id)
            × ((auth : AuthContext) × ((caller G J W T rt req ≡ ok auth)
                  × (row.caller_key_id ≡ auth.key_id))))
          (chat_completions G J W T b rt live m s req).1.rows
  unfolding chat_completions respond rejected
  chat_completions-Belong b rt live m s req =
      elim (Result-cases (pre_route G J W T rt live.at_gates s m.limited_at req).1) [
        | inr (e, refused) ↦ rw refused tt
        | inl (routed, through) ↦
            let a = pre_route-Admitted G J W T rt live.at_gates s m.limited_at req through in
            rw through (
              All-map
                (λ row h. (
                  h.0,
                  (
                    a.auth,
                    (caller-known rt req a.bearer a.authenticated, h.1 ∙ key_of-carried a.carries),
                  ),
                ))
                _ (execute-Belong b live m routed))
      ]
