-- ===== src/Providers/Wire.antt =====
-- crates/moaray-providers/src: what the adapters use of `str`, `serde_json` and `reqwest`, and the raw
-- response of crates/moaray-core/src/provider.rs. Bytes are numbers.
use moaray.Base.{ℕ, String, Bool, Option, List}
use moaray.Base.Int.{ℤ}
use moaray.Base.Result.{Result}
use moaray.Core.Error.{Error}
use moaray.Core.Json.{Json}
use moaray.Core.Types.{ChatRequest, ChatResponse}

-- A transport error of `reqwest`.
pub record Failure : Type 0 where
  pub is_timeout : Bool
  pub is_connect : Bool

-- What an upstream answers: its body comes whole, or chunk by chunk.
pub record Response : Type 0 where
  pub status : ℕ
  pub content_type : Option String
  pub bytes : Result (List ℕ) Failure
  pub bytes_stream : List (Result (List ℕ) Failure)

-- The header by which an upstream knows its caller: `Authorization: Bearer` or `x-api-key`.
pub data Credential : Type 0 where
  bearer : String → Credential
  x_api_key : String → Credential

pub record Post : Type 0 where
  pub url : String
  pub credential : Credential
  pub anthropic_version : Option String
  pub request_id : String
  pub body : List ℕ

pub record Wire (J : Json) : Type 0 where
  pub from_utf8 : List ℕ → Option String
  pub utf8 : String → List ℕ
  pub trim : String → String
  pub trim_start : String → String
  -- `serde_json::from_slice`, with the text of its error, and `to_vec`
  pub from_slice : List ℕ → Result J.Value String
  pub to_vec : J.Value → List ℕ
  -- the derived codecs of the chat types
  pub request_value : ChatRequest J → Option J.Value
  pub response_of_value : J.Value → Option (ChatResponse J)
  -- `send`
  pub send : Post → Result Response Failure

pub record RawResponse : Type 0 where
  pub status : ℕ
  pub content_type : Option String
  pub body : List (Result (List ℕ) Error)
  pub usage : Option (ℤ × ℤ)
