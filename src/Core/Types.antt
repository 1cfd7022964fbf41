-- ===== src/Core/Types.antt =====
-- crates/moaray-core/src/types.rs and provider.rs: chat requests and responses, the request's
-- context, and the structured half of the provider trait.
use moaray.Base.{ℕ, String, Bool, false, Option, List, unwrap_or}
use moaray.Base.Dict.{Dict}
use moaray.Base.Result.{Result}
use moaray.Core.Error.{Error}
use moaray.Core.Json.{Json}

pub record ReqCtx : Type 0 where
  pub request_id : String
  -- milliseconds on the monotonic clock
  pub deadline : ℕ
  pub caller_key_id : String
  pub model : String

module _ (J : Json) where
  pub record ChatMessage : Type 0 where
    pub role : String
    pub content : Option J.Value
    pub extra : Dict J.Value

  pub record ChatRequest : Type 0 where
    pub model : String
    pub messages : List ChatMessage
    pub stream : Option Bool
    pub max_tokens : Option ℕ
    pub temperature : Option J.Float
    pub top_p : Option J.Float
    pub extra : Dict J.Value

  unfoldable pub is_stream : ChatRequest → Bool
  is_stream r = unwrap_or r.stream false

  pub record ChatResponse : Type 0 where
    pub id : Option String
    pub object : Option String
    pub model : Option String
    pub choices : List J.Value
    pub usage : Option J.Value
    pub extra : Dict J.Value

  -- What a call of `chat` comes to when nobody cuts it off: its result, and the milliseconds that it
  -- takes.
  pub record Call : Type 0 where
    pub takes : ℕ
    pub result : Result ChatResponse Error

  pub record Provider : Type 0 where
    pub upstream_id : String
    pub chat : ReqCtx → ChatRequest → Call
