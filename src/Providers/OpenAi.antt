-- ===== src/Providers/OpenAi.antt =====
-- crates/moaray-providers/src/openai.rs: what the adapter of an OpenAI-compatible upstream sends, and
-- what it hands back.
use moaray.Base.{ℕ, String, str_append, none, List}
use moaray.Base.Text.{trim_end_slashes}
use moaray.Base.Result.{Result, ok, ◌>>=◌, ◌>>◌, ok_or}
use moaray.Core.Error.{Error, upstream_error, internal}
use moaray.Core.Json.{Json}
use moaray.Core.Types.{ReqCtx, ChatRequest, ChatResponse}
use moaray.Providers.Wire.{Wire, Response, bearer, RawResponse}
use moaray.Providers.Status.{
  map_upstream_status, map_reqwest_error, or_else, collect_response, stream_response,
}

pub record OpenAiProvider : Type 0 where
  pub upstream_id : String
  pub base_url : String
  pub api_key : String

module _ (J : Json) (W : Wire J) where
  unfoldable pub endpoint : OpenAiProvider → String
  endpoint self = str_append (trim_end_slashes self.base_url) "/v1/chat/completions"

  unfoldable pub send : OpenAiProvider → ReqCtx → List ℕ → Result Response Error
  unfolding endpoint
  send self ctx raw_body =
      or_else
        (W.send (record {
          url = endpoint self;
          credential = bearer self.api_key;
          anthropic_version = none;
          request_id = ctx.request_id;
          body = raw_body;
        }))
        map_reqwest_error

  unfoldable pub passthrough : OpenAiProvider → ReqCtx → List ℕ → Result RawResponse Error
  unfolding send
  passthrough self ctx raw_body = do
    resp ← send self ctx raw_body
    map_upstream_status resp.status
    collect_response J W resp

  unfoldable pub passthrough_stream : OpenAiProvider → ReqCtx → List ℕ → Result RawResponse Error
  unfolding send
  passthrough_stream self ctx raw_body = do
    resp ← send self ctx raw_body
    map_upstream_status resp.status
    ok (stream_response resp)

  unfoldable pub chat : OpenAiProvider → ReqCtx → ChatRequest J → Result (ChatResponse J) Error
  unfolding send
  chat self ctx req = do
    body ← ok_or (W.request_value req) internal
    resp ← send self ctx (W.to_vec body)
    map_upstream_status resp.status
    bytes ← or_else resp.bytes map_reqwest_error
    value ← or_else (W.from_slice bytes) (λ e. upstream_error)
    ok_or (W.response_of_value value) upstream_error
