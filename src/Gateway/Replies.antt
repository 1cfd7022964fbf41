-- ===== src/Gateway/Replies.antt =====
-- crates/moaray/src/app.rs and http_error.rs: the responses of the gateway, and its request ids.
use moaray.Base.{
  ℕ, String, Bool, ◌&&◌, if◌then◌else◌, ltb, leb, Option, none, some, List, [], ◌∷◌, map, unwrap_or,
}
use moaray.Base.Result.{Result, ok, err}
use moaray.Base.Text.{is_empty}
use moaray.Core.Error.{Error, envelope}
use moaray.Core.Json.{Json}
use moaray.Moa.Arm.{ArmStatus, ArmOutcome}
use moaray.Moa.Arm
use moaray.Providers.Wire.{RawResponse}
use moaray.Providers.Request.{fields}

-- The response that a client gets: a body that fails in the middle ends with the message of its error.
pub record Reply : Type 0 where
  pub status : ℕ
  pub content_type : String
  pub no_cache : Bool
  pub body : List (Result (List ℕ) String)

-- `StatusCode::from_u16`: three digits.
abbrev pub valid_status : ℕ → Bool
valid_status s = leb 100 s && ltb s 1000

abbrev chunk_message : Result (List ℕ) Error → Result (List ℕ) String
chunk_message (ok bytes) = ok bytes
chunk_message (err e) = err (envelope e).message

unfoldable pub into_response : RawResponse → Bool → Reply
into_response raw stream = record {
  status = if valid_status raw.status then raw.status else 200;
  content_type =
      unwrap_or raw.content_type (if stream then "text/event-stream" else "application/json");
  no_cache = stream;
  body = map chunk_message raw.body;
}

-- The id that came in, unless it is empty, or a new one.
unfoldable pub request_id_of : Option String → String → String
request_id_of none minted = minted
request_id_of (some rid) minted = if is_empty rid then minted else rid

abbrev pub arm_status_text : ArmStatus → String
arm_status_text Arm.ok = "ok"
arm_status_text Arm.error = "error"
arm_status_text Arm.timeout = "timeout"

module _ (J : Json) where
  -- `ApiError::into_response`.
  unfoldable pub error_reply : Error → ℕ × J.Value
  unfolding fields
  error_reply e =
      let env = envelope e in
      (
        if valid_status env.status then env.status else 500,
        J.object (
            fields (
              (
                "error",
                J.object (
                    fields (
                      ("message", J.string env.message)
                      ∷ ("type", J.string env.error_type)
                      ∷ ("code", J.string env.code)
                      ∷ ("param", J.null)
                      ∷ [])),
              )
              ∷ [])),
      )

  unfoldable pub arm_json : ArmOutcome → J.Value
  unfolding fields
  arm_json a = J.object (
      fields (
        ("model", J.string a.model)
        ∷ ("upstream_id", J.string a.upstream_id)
        ∷ ("latency_ms", J.from_u64 a.latency_ms)
        ∷ ("status", J.string (arm_status_text a.status))
        ∷ ("usage_present", J.boolean a.usage_present)
        ∷ []))

  abbrev aggregator_json : Option ArmOutcome → J.Value
  aggregator_json none = J.null
  aggregator_json (some a) = arm_json a

  unfoldable pub moa_metadata : List ArmOutcome → Option ArmOutcome → J.Value
  unfolding arm_json fields
  moa_metadata proposers aggregator = J.object (
      fields (
        ("arms", J.array (map arm_json proposers))
        ∷ ("aggregator", aggregator_json aggregator)
        ∷ []))
