-- ===== src/Gateway/Dispatch/Counted.antt =====
-- crates/moaray/src/app.rs and observe.rs: how often and as what a request is counted.
use moaray.Base.{
  ℕ, String, str_append, Bool, true, false, ◌≡◌, refl, if◌then◌else◌, Bool-cases, inl, inr, Option,
  List, [], ◌∷◌, arith,
}
use moaray.Base.Result.{Result, ok, err, Result-cases}
use moaray.Config.Runtime.{RuntimeConfig}
use moaray.Core.Error.{Error, envelope, bad_request}
use moaray.Core.Json.{Json}
use moaray.Core.Types.{ReqCtx, ChatRequest, ChatResponse}
use moaray.Core.Usage.{UsageArm, proposer, aggregator, UsageRecord}
use moaray.Limit.{Governor}
use moaray.State.{Arc, StatefulState}
use moaray.Registry.{GovernedProvider}
use moaray.Reload.{Runtime}
use moaray.Auth.Bearer.{Text, AuthContext}
use moaray.Moa.Arm.{ArmOutcome}
use moaray.Moa.Orchestrator.{MoaRun}
use moaray.Providers.Wire.{Wire, RawResponse}
use moaray.Gateway.Accounting.{book_moa_arm, listed}
use moaray.Gateway.Gates.{Inbound, Routed, pre_route}
use moaray.Gateway.Gates
use moaray.Gateway.Replies.{valid_status}
use moaray.Gateway.Metrics.{
  RequestPath, passthrough, moa, pre_routing, usage_unaccounted_stream_total, record_request,
  record_moa_arm, rejected_model,
}
use moaray.Gateway.Metrics.Counts.{
  CountsOnce, CountsNone, record_request-CountsOnce, record_rejection-CountsOnce, CountsOnce-append,
  CountsNone-append, CountsOnce-after,
}
use moaray.Gateway.Handlers.{
  RawProvider, Execution, within, upstream_call, RawCall, row_of, moa_reply, run_moa,
}
use moaray.Gateway.Handlers
use moaray.Gateway.Dispatch.{
  Live, Moment, is_unpriced, count_unpriced, passthrough_metrics, arm_metrics, arms_metrics,
  outcome_status, run_metrics, Answer, relayed, json, map_ok, Served, rejected, serve_passthrough,
  serve_run, Backends, orchestrate, serve_request, execute, respond, chat_completions,
}

count_unpriced-CountsNone : (row : UsageRecord) → CountsNone (count_unpriced row)
unfolding count_unpriced
count_unpriced-CountsNone row = elim (Bool-cases (is_unpriced row.status)) [
  | inl e ↦ rw e (record { no_requests = refl; no_errors = refl })
  | inr e ↦ rw e (record { no_requests = refl; no_errors = refl })
]

arms_metrics-CountsNone :
    (config : RuntimeConfig) (x : Execution) (kind : UsageArm) (arms : List ArmOutcome)
    → CountsNone (arms_metrics config x kind arms)
unfolding arms_metrics arm_metrics record_moa_arm
arms_metrics-CountsNone config x kind [] = record { no_requests = refl; no_errors = refl }
arms_metrics-CountsNone config x kind (a ∷ arms) =
    let row = book_moa_arm config x.request_id x.caller_key_id x.unix_ms kind a in
    let counted = count_unpriced-CountsNone row in
    CountsNone-append (arm_metrics a row) (arms_metrics config x kind arms)
      (record { no_requests = counted.no_requests; no_errors = counted.no_errors })
      (arms_metrics-CountsNone config x kind arms)

within-ok :
    (timeout_ms : ℕ) (call : RawCall) {resp : RawResponse}
    → within timeout_ms call ≡ ok resp
    → call.result ≡ ok resp
unfolding within
within-ok timeout_ms call h = ground arith

answered_metrics-CountsNone :
    (stream : Bool) (row : UsageRecord)
    → CountsNone (if stream then usage_unaccounted_stream_total ∷ [] else count_unpriced row)
answered_metrics-CountsNone true row = record { no_requests = refl; no_errors = refl }
answered_metrics-CountsNone false row = count_unpriced-CountsNone row

-- The status of the answer to a client.
abbrev pub answer_status : {J : Json} → Result (Answer J) Error → ℕ
answer_status (ok (relayed r)) = r.status
answer_status (ok (json v)) = 200
answer_status (err e) = (envelope e).status

module _ (J : Json) where
  -- The metrics count one request, with the status of the answer.
  abbrev pub Counted : RequestPath → String → Served J → Type 0
  Counted path model served = CountsOnce path model (answer_status served.answer) served.metrics

  rejected-Counted : (e : Error) → Counted pre_routing rejected_model (rejected J e)
  unfolding rejected
  rejected-Counted e = record_rejection-CountsOnce (envelope e).status

  passthrough-Counted :
      (config live : RuntimeConfig) (provider : RawProvider) (x : Execution)
      → ((resp : RawResponse)
          → (upstream_call live provider x).result ≡ ok resp
          → valid_status resp.status ≡ true)
      → Counted passthrough x.model (serve_passthrough J config live provider x)
  unfolding serve_passthrough Handlers.passthrough passthrough_metrics
  passthrough-Counted config live provider x valid =
      elim (Result-cases (within live.server.request_timeout_ms (upstream_call live provider x))) [
        | inr (e, failed) ↦
            rw failed (record_request-CountsOnce passthrough x.model (envelope e).status)
        | inl (resp, answered) ↦
            rw (answered, valid resp (within-ok _ (upstream_call live provider x) answered))
              (CountsOnce-append (record_request passthrough x.model resp.status) _
                (record_request-CountsOnce passthrough x.model resp.status)
                (answered_metrics-CountsNone x.stream (row_of config provider x resp)))
      ]

  reply_status :
      (to_value : ChatResponse J → Option J.Value) (live : RuntimeConfig) (run : MoaRun J)
      → answer_status (map_ok J json (moa_reply J to_value live run)) ≡ outcome_status J run.outcome
  unfolding moa_reply outcome_status
  reply_status to_value live run = elim (Result-cases run.outcome) [
    | inl (r, e) ↦ rw (e, moa_reply, outcome_status) refl
    | inr (r, e) ↦ rw (e, moa_reply, outcome_status) refl
  ]

  run-Counted :
      (to_value : ChatResponse J → Option J.Value) (config live : RuntimeConfig) (x : Execution)
      (run : Result (MoaRun J) Error)
      → Counted moa x.model (serve_run J to_value config live x run)
  unfolding serve_run run_moa run_metrics
  run-Counted to_value config live x (err e) =
      record_request-CountsOnce moa x.model (envelope e).status
  run-Counted to_value config live x (ok run) = rw (reply_status to_value live run) (
      CountsOnce-after _ _ (arms_metrics-CountsNone config x proposer run.proposers) (
        CountsOnce-after _ _ (arms_metrics-CountsNone config x aggregator (listed run.aggregator))
          (record_request-CountsOnce moa x.model (outcome_status J run.outcome))))

module _ (G : Governor) (J : Json) (W : Wire J) (T : Text) where
  -- The status of an answer has three digits.
  abbrev pub HasStatuses : Backends G J W T → Type 0
  HasStatuses b =
      (p : Arc (GovernedProvider G)) (ctx : ReqCtx) (body : List ℕ) (resp : RawResponse)
      → (((b.raw p).passthrough ctx body).result ≡ ok resp → valid_status resp.status ≡ true)
        × (((b.raw p).passthrough_stream ctx body).result ≡ ok resp
            → valid_status resp.status ≡ true)

  -- What a request is counted as, by how far it comes.
  pub data Outcome (b : Backends G J W T) (served : Served J)
      : Result (Routed G J W T) Error → Type 0 where
    turned_away :
        (e : Error)
        → served.rows ≡ []
        → served.answer ≡ err e
        → Counted J pre_routing rejected_model served
        → Outcome b served (err e)
    forwarded :
        (auth : AuthContext) (raw : List ℕ) (model : String) (stream : Bool)
        (provider : Arc (GovernedProvider G)) (rt : Runtime G)
        → Counted J passthrough model served
        → Outcome b served (ok (Gates.passthrough auth raw model stream provider rt))
    ran :
        (key_id recipe : String) (raw : List ℕ) (model : String) (rt : Runtime G)
        (request : ChatRequest J)
        → b.parse_request raw ≡ ok request
        → Counted J moa model served
        → Outcome b served (ok (Gates.moa key_id recipe raw model rt))
    unreadable :
        (key_id recipe : String) (raw : List ℕ) (model : String) (rt : Runtime G) (text : String)
        → b.parse_request raw ≡ err text
        → served ≡ record {
          rows = [];
          metrics = [];
          answer = err (bad_request (str_append "invalid request: " text));
        }
        → Outcome b served (ok (Gates.moa key_id recipe raw model rt))

  serve_request-Outcome :
      (b : Backends G J W T) (live : Live) (x : Execution) (recipe : String) (rt : Runtime G)
      (r : Result (ChatRequest J) String)
      → b.parse_request x.raw ≡ r
      → Outcome b
          (serve_request G J W T b rt live x recipe r)
          (ok (Gates.moa x.caller_key_id recipe x.raw x.model rt))
  unfolding serve_request
  serve_request-Outcome b live x recipe rt (ok request) h =
      ran x.caller_key_id recipe x.raw x.model rt request h (
        run-Counted J b.to_value rt.config live.at_reply x
          (orchestrate G J W T b rt live.at_call x recipe request))
  serve_request-Outcome b live x recipe rt (err text) h =
      unreadable x.caller_key_id recipe x.raw x.model rt text h refl

  upstream_call-HasStatus :
      (b : Backends G J W T) (live : RuntimeConfig) (p : Arc (GovernedProvider G)) (x : Execution)
      → HasStatuses b
      → (resp : RawResponse) → (upstream_call live (b.raw p) x).result ≡ ok resp
      → valid_status resp.status ≡ true
  unfolding upstream_call
  upstream_call-HasStatus b live p x valid resp = elim (Bool-cases x.stream) [
    | inl e ↦ rw e (valid p _ x.raw resp).1
    | inr e ↦ rw e (valid p _ x.raw resp).0
  ]

  respond-Outcome :
      (b : Backends G J W T) (live : Live) (m : Moment) (routed : Result (Routed G J W T) Error)
      → HasStatuses b
      → Outcome b (respond G J W T b live m routed) routed
  unfolding respond execute
  respond-Outcome b live m (err e) valid =
      unfold rejected in turned_away e refl refl (rejected-Counted J e)
  respond-Outcome b live m (ok (Gates.passthrough auth raw model stream provider rt)) valid =
      let x : Execution = record {
        request_id = m.request_id;
        caller_key_id = auth.key_id;
        model = model;
        raw = raw;
        stream = stream;
        now = m.now;
        unix_ms = m.unix_ms;
      } in
      forwarded auth raw model stream provider rt (
        passthrough-Counted J rt.config live.at_call (b.raw provider) x
          (upstream_call-HasStatus b live.at_call provider x valid))
  respond-Outcome b live m (ok (Gates.moa key_id recipe raw model rt)) valid =
      serve_request-Outcome b live
        (record {
          request_id = m.request_id;
          caller_key_id = key_id;
          model = model;
          raw = raw;
          stream = false;
          now = m.now;
          unix_ms = m.unix_ms;
        })
        recipe rt (b.parse_request raw) refl

  -- A request is counted once, with the path that it takes, its model, and the class of the status
  -- that it is answered with, and as an error exactly when that status is 400 or more. One that the
  -- gates turn away books no row and is counted under a fixed path and model. The exception is a request
  -- for a recipe whose body is no chat request: it is refused, and neither booked nor counted.
  pub chat_completions-Outcome :
      (b : Backends G J W T) (rt : Runtime G) (live : Live) (m : Moment) (s : StatefulState G)
      (req : Inbound)
      → HasStatuses b
      → Outcome b
          (chat_completions G J W T b rt live m s req).1
          (pre_route G J W T rt live.at_gates s m.limited_at req).1
  unfolding chat_completions
  chat_completions-Outcome b rt live m s req valid =
      respond-Outcome b live m (pre_route G J W T rt live.at_gates s m.limited_at req).1 valid
