-- ===== src/Providers/Anthropic.antt =====
-- crates/moaray-providers/src/anthropic.rs: what the adapter of an Anthropic upstream sends, and what it
-- hands back.
use moaray.Base.{
  ℕ, ◌-◌, ◌^◌, String, str_append, Bool, true, false, if◌then◌else◌, ltb, Option, none, some, List,
  [], ◌∷◌, map, is_some, unwrap_or,
}
use moaray.Base.Int.{ℤ, pos, negsuc}
use moaray.Base.Text.{trim_end_slashes}
use moaray.Base.Dict
use moaray.Base.Dict.{Dict}
use moaray.Base.Result.{Result, ok, ◌>>=◌, ◌>>◌, ok_or}
use moaray.Core.Error.{Error, bad_request, upstream_error, internal}
use moaray.Core.Json.{Json}
use moaray.Core.Types.{ReqCtx, ChatRequest, ChatResponse}
use moaray.Providers.Wire.{Wire, Response, x_api_key, RawResponse}
use moaray.Providers.Status.{map_upstream_status, map_reqwest_error, relay_chunk, or_else}
use moaray.Providers.Request.{text_at, openai_to_anthropic}
use moaray.Providers.Completion.{anthropic_to_openai, usage_tokens}
use moaray.Providers.Sse.Translate.{translate}

pub record AnthropicProvider : Type 0 where
  pub upstream_id : String
  pub base_url : String
  pub api_key : String
  pub default_max_tokens : ℕ

-- `u64 as i64`.
abbrev i64_of_u64 : ℕ → ℤ
i64_of_u64 n = if ltb n (2 ^ 63) then pos n else negsuc (2 ^ 64 - 1 - n)

module _ (J : Json) (W : Wire J) where
  unfoldable pub endpoint : AnthropicProvider → String
  endpoint self = str_append (trim_end_slashes self.base_url) "/v1/messages"

  unfoldable pub build_body : AnthropicProvider → List ℕ → Bool → Result (String × J.Value) Error
  build_body self raw_body stream = do
    openai ← or_else (W.from_slice raw_body) (λ e. bad_request (str_append "invalid JSON: " e))
    out ← openai_to_anthropic J openai self.default_max_tokens
    ok (
      unwrap_or (text_at J openai "model") "",
      J.object (Dict.insert out "stream" (J.boolean stream)),
    )

  unfoldable pub send : AnthropicProvider → ReqCtx → J.Value → Result Response Error
  unfolding endpoint
  send self ctx body =
      or_else
        (W.send (record {
          url = endpoint self;
          credential = x_api_key self.api_key;
          anthropic_version = some "2023-06-01";
          request_id = ctx.request_id;
          body = W.to_vec body;
        }))
        map_reqwest_error

  abbrev counted : Option J.Value → Option (ℤ × ℤ)
  counted none = none
  counted (some u) =
      some (i64_of_u64 (usage_tokens J (some u)).0, i64_of_u64 (usage_tokens J (some u)).1)

  unfoldable pub passthrough : AnthropicProvider → ReqCtx → List ℕ → Result RawResponse Error
  unfolding build_body send
  passthrough self ctx raw_body = do
    built ← build_body self raw_body false
    resp ← send self ctx built.1
    map_upstream_status resp.status
    bytes ← or_else resp.bytes map_reqwest_error
    anthropic ← or_else (W.from_slice bytes) (λ e. upstream_error)
    openai ← anthropic_to_openai J anthropic built.0
    ok (record {
      status = resp.status;
      content_type = some "application/json";
      body = ok (W.to_vec (J.object openai)) ∷ [];
      usage = counted (J.field anthropic "usage");
    })

  unfoldable pub passthrough_stream : AnthropicProvider → ReqCtx → List ℕ → Result RawResponse Error
  unfolding build_body send
  passthrough_stream self ctx raw_body = do
    built ← build_body self raw_body true
    resp ← send self ctx built.1
    map_upstream_status resp.status
    ok (record {
      status = resp.status;
      content_type = some "text/event-stream";
      body = translate J W built.0 (map relay_chunk resp.bytes_stream);
      usage = none;
    })

  -- A response whose raw body has no usage is handed on without one.
  unfoldable pub chat : AnthropicProvider → ReqCtx → ChatRequest J → Result (ChatResponse J) Error
  unfolding send
  chat self ctx req = do
    openai ← ok_or (W.request_value req) internal
    out ← openai_to_anthropic J openai self.default_max_tokens
    resp ← send self ctx (J.object (Dict.insert out "stream" (J.boolean false)))
    map_upstream_status resp.status
    bytes ← or_else resp.bytes map_reqwest_error
    anthropic ← or_else (W.from_slice bytes) (λ e. upstream_error)
    answer ← anthropic_to_openai J anthropic req.model
    response ← ok_or (W.response_of_value (J.object answer)) internal
    ok (if is_some (J.field anthropic "usage") then response else record response { usage = none })
