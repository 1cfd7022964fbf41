-- ===== src/Gateway/Dispatch.antt =====
-- crates/moaray/src/app.rs: `chat_completions`, from the gates to the answer, with the usage rows that it
-- books and the metrics that it records.
pub mod Counted
pub mod Attributed
use moaray.Base.{
  ℕ, String, str_append, Bool, true, false, if◌then◌else◌, leb, Option, none, some, List, [], ◌∷◌,
  ◌++◌,
}
use mathlib.Core.Option
use moaray.Base.Int.{ℤ}
use moaray.Base.Dict
use moaray.Base.Result.{Result, ok, err}
use moaray.Config.Runtime.{RuntimeConfig}
use moaray.Core.Error.{Error, envelope, bad_request}
use moaray.Core.Json.{Json}
use moaray.Core.Types.{ChatRequest, ChatResponse, Provider}
use moaray.Core.Usage.{UsageStatus, unpriced, UsageArm, proposer, aggregator, UsageRecord}
use moaray.Limit.{Governor}
use moaray.State.{Arc, StatefulState}
use moaray.Registry.{GovernedProvider}
use moaray.Reload.{Runtime}
use moaray.Auth.Bearer.{Text, AuthContext}
use moaray.Moa.Arm.{ArmOutcome}
use moaray.Moa.Orchestrator.{MoaRun, Schedule}
use moaray.Moa.Orchestrator
use moaray.Providers.Wire.{Wire, RawResponse}
use moaray.Gateway.Accounting.{book_moa_arm, listed}
use moaray.Gateway.Gates.{Inbound, Routed, pre_route}
use moaray.Gateway.Gates
use moaray.Gateway.Replies.{Reply, arm_status_text}
use moaray.Gateway.Metrics.{
  Update, usage_unaccounted_stream_total, usage_unpriced_total, record_request, record_rejection,
  record_moa_arm,
}
use moaray.Gateway.Metrics
use moaray.Gateway.Handlers.{
  RawProvider, Execution, within, request_ctx, upstream_call, row_of, passthrough, run_moa,
}

-- The configuration that is live when the body is read, when the request is executed, and when a run is
-- answered.
pub record Live : Type 0 where
  pub at_gates : RuntimeConfig
  pub at_call : RuntimeConfig
  pub at_reply : RuntimeConfig

-- The clocks of a request and its id.
pub record Moment : Type 0 where
  pub request_id : String
  pub limited_at : ℕ
  pub now : ℕ
  pub unix_ms : ℤ

abbrev pub is_unpriced : UsageStatus → Bool
is_unpriced unpriced = true
is_unpriced _ = false

-- What a row that is booked adds to the metrics.
unfoldable pub count_unpriced : UsageRecord → List Update
count_unpriced row = if is_unpriced row.status then usage_unpriced_total ∷ [] else []

unfoldable pub passthrough_metrics :
    RuntimeConfig → RawProvider → Execution → Result RawResponse Error → List Update
passthrough_metrics config provider x (ok resp) =
    record_request Metrics.passthrough x.model resp.status
    ++ (if x.stream
        then usage_unaccounted_stream_total ∷ []
        else count_unpriced (row_of config provider x resp))
passthrough_metrics config provider x (err e) =
    record_request Metrics.passthrough x.model (envelope e).status

unfoldable pub arm_metrics : ArmOutcome → UsageRecord → List Update
arm_metrics arm row =
    record_moa_arm arm.model arm.upstream_id (arm_status_text arm.status) ++ count_unpriced row

-- `book_moa_arm` for every arm of a kind: what it adds to the metrics.
unfoldable pub arms_metrics : RuntimeConfig → Execution → UsageArm → List ArmOutcome → List Update
arms_metrics config x kind [] = []
arms_metrics config x kind (a ∷ arms) =
    arm_metrics a (book_moa_arm config x.request_id x.caller_key_id x.unix_ms kind a)
    ++ arms_metrics config x kind arms

module _ (J : Json) where
  unfoldable pub outcome_status : Result (ChatResponse J) Error → ℕ
  outcome_status (ok response) = 200
  outcome_status (err e) = (envelope e).status

  unfoldable pub run_metrics : RuntimeConfig → Execution → Result (MoaRun J) Error → List Update
  run_metrics config x (err e) = record_request Metrics.moa x.model (envelope e).status
  run_metrics config x (ok run) =
      arms_metrics config x proposer run.proposers
      ++ (arms_metrics config x aggregator (listed run.aggregator)
          ++ record_request Metrics.moa x.model (outcome_status run.outcome))

  -- A response body: relayed, or the JSON of a run.
  pub data Answer : Type 0 where
    relayed : Reply → Answer
    json : J.Value → Answer

  -- What comes of a request: the rows that it books, the metrics that it records, its answer.
  pub record Served : Type 0 where
    pub rows : List UsageRecord
    pub metrics : List Update
    pub answer : Result Answer Error

  abbrev pub map_ok : {A : Type 0} → (A → Answer) → Result A Error → Result Answer Error
  map_ok f (ok a) = ok (f a)
  map_ok f (err e) = err e

  unfoldable pub rejected : Error → Served
  rejected e = record { rows = []; metrics = record_rejection (envelope e).status; answer = err e }

  unfoldable pub serve_passthrough :
      RuntimeConfig → RuntimeConfig → RawProvider → Execution → Served
  serve_passthrough config live provider x =
      let (rows, answer) = passthrough config live provider x in
      record {
        rows = rows;
        metrics =
            passthrough_metrics config provider x
              (within live.server.request_timeout_ms (upstream_call live provider x));
        answer = map_ok relayed answer;
      }

  unfoldable pub serve_run :
      (ChatResponse J → Option J.Value)
      → RuntimeConfig
      → RuntimeConfig
      → Execution
      → Result (MoaRun J) Error
      → Served
  serve_run to_value config live x run =
      let (rows, answer) = run_moa J to_value config live x run in
      record { rows = rows; metrics = run_metrics config x run; answer = map_ok json answer }

module _ (G : Governor) (J : Json) (W : Wire J) (T : Text) where
  -- What the handlers call: the two halves of a provider, the derived codecs of the chat types, and
  -- when the arms of a run start and finish.
  pub record Backends : Type 0 where
    pub raw : Arc (GovernedProvider G) → RawProvider
    pub structured : Arc (GovernedProvider G) → Provider J
    pub parse_request : List ℕ → Result (ChatRequest J) String
    pub to_value : ChatResponse J → Option J.Value
    pub schedule : Schedule J

  -- `runtime.orchestrator.run`.
  unfoldable pub orchestrate :
      Backends
      → Runtime G
      → RuntimeConfig
      → Execution
      → String
      → ChatRequest J
      → Result (MoaRun J) Error
  orchestrate b rt live x recipe request =
      Orchestrator.run J (λ p. Option.map b.structured (Dict.get rt.orchestrator.resolver p))
        rt.orchestrator.recipes b.schedule (request_ctx live x) recipe request

  -- `run_moa`, from the request that the body holds.
  unfoldable pub serve_request :
      Backends → Runtime G → Live → Execution → String → Result (ChatRequest J) String → Served J
  serve_request b rt live x recipe (err text) = record {
    rows = [];
    metrics = [];
    answer = err (bad_request (str_append "invalid request: " text));
  }
  serve_request b rt live x recipe (ok request) =
      serve_run J b.to_value rt.config live.at_reply x
        (orchestrate b rt live.at_call x recipe request)

  unfoldable pub execute : Backends → Live → Moment → Routed G J W T → Served J
  execute b live m (Gates.passthrough auth raw model stream provider rt) =
      serve_passthrough J rt.config live.at_call (b.raw provider) (record {
        request_id = m.request_id;
        caller_key_id = auth.key_id;
        model = model;
        raw = raw;
        stream = stream;
        now = m.now;
        unix_ms = m.unix_ms;
      })
  execute b live m (Gates.moa key_id recipe raw model rt) =
      let x : Execution = record {
        request_id = m.request_id;
        caller_key_id = key_id;
        model = model;
        raw = raw;
        stream = false;
        now = m.now;
        unix_ms = m.unix_ms;
      } in
      serve_request b rt live x recipe (b.parse_request raw)

  unfoldable pub respond : Backends → Live → Moment → Result (Routed G J W T) Error → Served J
  respond b live m (err e) = rejected J e
  respond b live m (ok routed) = execute b live m routed

  unfoldable pub chat_completions :
      Backends → Runtime G → Live → Moment → StatefulState G → Inbound → StatefulState G × Served J
  chat_completions b rt live m s req =
      let (after, routed) = pre_route G J W T rt live.at_gates s m.limited_at req in
      (after, respond b live m routed)
