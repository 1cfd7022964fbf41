-- ===== src/Gateway/DispatchExamples.antt =====
-- crates/moaray/src/app.rs: a request for a recipe, from its bytes to its answer.
use moaray.Base.{◌≡◌, ap, none, [], All}
use moaray.Base.Int.{pos}
use moaray.Base.Result.{ok, err}
use moaray.Core.Error.{bad_request, upstream_error, upstream_timeout}
use moaray.Core.Types.{ChatRequest}
use moaray.Core.Usage.{UsageRecord}
use moaray.State.{empty}
use moaray.Auth.Bearer.{AuthContext}
use moaray.Auth.Examples.{plain_text}
use moaray.Gateway.Gates.{caller, pre_route}
use moaray.Gateway.GatesExamples.{governor, Sample, reads_wish, keyed, served, asked, routed_test}
use moaray.Gateway.Handlers.{RawProvider}
use moaray.Gateway.Dispatch.{
  Live, Moment, Backends, chat_completions, respond, execute, serve_request,
}
use moaray.Gateway.Dispatch.Counted.{Outcome, HasStatuses, chat_completions-Outcome}
use moaray.Gateway.Dispatch.Attributed.{chat_completions-Belong}

abbrev failing : RawProvider
failing = record {
  upstream_id = "up";
  passthrough = λ ctx raw. record { takes = 20; result = err upstream_error };
  passthrough_stream = λ ctx raw. record { takes = 20; result = err upstream_error };
}

abbrev request : ChatRequest Sample
request = record {
  model = "moa/best";
  messages = [];
  stream = none;
  max_tokens = none;
  temperature = none;
  top_p = none;
  extra = [];
}

abbrev backends : Backends governor Sample reads_wish plain_text
backends = record {
  raw = λ p. failing;
  structured = λ p. record {
    upstream_id = "up";
    chat = λ ctx r. record { takes = 20; result = err upstream_timeout };
  };
  parse_request = λ raw. ok request;
  to_value = λ r. none;
  schedule = record { fan_out_at = 0; aggregate_at = 0; finish_order = λ arms. arms };
}

abbrev live : Live
live = record { at_gates = keyed; at_call = keyed; at_reply = keyed }

abbrev moment : Moment
moment = record { request_id = "r1"; limited_at = 0; now = 0; unix_ms = pos 5 }

abbrev unreadable : Backends governor Sample reads_wish plain_text
unreadable = record backends { parse_request = λ raw. err "missing field" }

-- A body with a model and nothing else passes the gates, and is neither booked nor counted.
uncounted :
    (chat_completions governor Sample reads_wish plain_text unreadable served live moment
      (empty governor)
      asked).1
    ≡ record {
      rows = [];
      metrics = [];
      answer = err (bad_request "invalid request: missing field");
    }
unfolding chat_completions respond execute serve_request
uncounted =
    ap (λ r. respond governor Sample reads_wish plain_text unreadable live moment r) routed_test

failing-HasStatuses : HasStatuses governor Sample reads_wish plain_text backends
failing-HasStatuses p ctx body resp = (λ h. cc h, λ h. cc h)

chat_completions-Outcome_example :
    Outcome governor Sample reads_wish plain_text backends
      (chat_completions governor Sample reads_wish plain_text backends served live moment
        (empty governor)
        asked).1
      (pre_route governor Sample reads_wish plain_text served keyed (empty governor) 0 asked).1
chat_completions-Outcome_example =
    chat_completions-Outcome governor Sample reads_wish plain_text backends served live moment
      (empty governor) asked failing-HasStatuses

chat_completions-Belong_example :
    All
      (λ (row : UsageRecord).
        (row.request_id ≡ "r1")
        × ((auth : AuthContext) × ((caller governor Sample reads_wish plain_text served asked
                ≡ ok auth)
              × (row.caller_key_id ≡ auth.key_id))))
      (chat_completions governor Sample reads_wish plain_text backends served live moment
        (empty governor)
        asked).1.rows
chat_completions-Belong_example =
    chat_completions-Belong governor Sample reads_wish plain_text backends served live moment
      (empty governor) asked
