-- ===== src/Providers/Request.antt =====
-- crates/moaray-providers/src/anthropic_map.rs: the Anthropic request for an OpenAI one.
use moaray.Base.{
  ℕ, String, str_append, str_eq, Bool, true, false, not, if◌then◌else◌, Option, none, some, List,
  [], ◌∷◌, unwrap_or,
}
use moaray.Base.Dict
use moaray.Base.Dict.{Dict}
use moaray.Base.Result.{Result, ok, err, ◌>>=◌, ◌>>◌, fail_if, ok_or}
use moaray.Core.Error.{Error, bad_request, unsupported}
use moaray.Core.Json.{Json}
use moaray.Providers.Status.{◌>>=?◌}

-- The text and the chat turns of a message list.
pub record Split (V : Type 0) : Type 0 where
  pub system_parts : List String
  pub messages : List V

abbrev quoted : String → String → String → String
quoted before what after = str_append before (str_append what after)

-- `Vec::join`.
unfoldable pub join : String → List String → String
join sep [] = ""
join sep (s ∷ []) = s
join sep (s ∷ t ∷ ts) = str_append s (str_append sep (join sep (t ∷ ts)))

-- `json!` of an object whose keys are all different.
unfoldable pub fields : {V : Type 0} → List (String × V) → Dict V
unfolding Dict.insert
fields [] = []
fields ((k, v) ∷ kvs) = Dict.insert (fields kvs) k v

module _ (J : Json) where
  abbrev pub text_at : J.Value → String → Option String
  text_at v k = J.field v k >>=? J.as_str

  unfoldable pub kind_of : J.Value → String
  kind_of part = unwrap_or (text_at part "type") "text"

  -- The texts of the parts one after the other; the first part that is not a text refuses.
  unfoldable pub text_parts : (String → String) → List J.Value → Result String Error
  unfolding kind_of
  text_parts refusal [] = ok ""
  text_parts refusal (part ∷ parts) = do
    fail_if (not (str_eq (kind_of part) "text")) (unsupported (refusal (kind_of part)))
    rest ← text_parts refusal parts
    ok (str_append (unwrap_or (text_at part "text") "") rest)

  unfoldable pub value_text : J.Value → Result String Error
  unfolding text_parts
  value_text v = if J.is_null v then ok "" else elim (J.as_str v) [
    | some s ↦ ok s
    | none ↦ elim (J.as_array v) [
      | some parts ↦
          text_parts (λ ty. quoted "non-text content part `" ty "` not supported in v1") parts
      | none ↦ err (bad_request (str_append "unexpected content shape: " (J.to_string v)))
    ]
  ]

  unfoldable pub content_to_text : Option J.Value → Result String Error
  unfolding value_text
  content_to_text none = ok ""
  content_to_text (some v) = value_text v

  abbrev pub is_set : J.Value → String → Bool
  is_set req k = unwrap_or (J.field req k >>=? λ v. some (not (J.is_null v))) false

  -- The first of the controls that is there and not null refuses.
  unfoldable pub refuse_controls : J.Value → List String → Result (Unit {0}) Error
  refuse_controls req [] = ok tt
  refuse_controls req (k ∷ ks) =
      fail_if (is_set req k) (unsupported (quoted "`" k "` is not supported in v1 (text-only)"))
      >> refuse_controls req ks

  abbrev pub controls : List String
  controls = "tools" ∷ "tool_choice" ∷ "response_format" ∷ []

  abbrev pub turn : String → String → J.Value
  turn role text = J.object (fields (("role", J.string role) ∷ ("content", J.string text) ∷ []))

  abbrev is_turn : String → Bool
  is_turn role = if str_eq role "user" then true else str_eq role "assistant"

  unfoldable pub role_check : String → Result (Unit {0}) Error
  role_check role =
      fail_if (if str_eq role "system" then false else not (is_turn role))
        (unsupported (quoted "unsupported message role `" role "`"))

  abbrev pub add_message : String → String → Split J.Value → Split J.Value
  add_message role text rest =
      if str_eq role "system"
      then record rest { system_parts = text ∷ rest.system_parts }
      else record rest { messages = turn role text ∷ rest.messages }

  unfoldable pub split_messages : List J.Value → Result (Split J.Value) Error
  unfolding content_to_text fields role_check
  split_messages [] = ok (record { system_parts = []; messages = [] })
  split_messages (m ∷ ms) = do
    text ← content_to_text (J.field m "content")
    let role = unwrap_or (text_at m "role") "user"
    role_check role
    rest ← split_messages ms
    ok (add_message role text rest)

  unfoldable pub max_tokens_of : J.Value → ℕ → ℕ
  max_tokens_of req fallback = unwrap_or (J.field req "max_tokens" >>=? J.as_u64) fallback

  -- `if let Some(x) = … { out.insert(key, json!(x)) }`.
  unfoldable pub insert_some :
      {A : Type 0} → String → (A → J.Value) → Option A → Dict J.Value → Dict J.Value
  unfolding Dict.insert
  insert_some k wrap none out = out
  insert_some k wrap (some a) out = Dict.insert out k (wrap a)

  unfoldable pub system_text : List String → Option String
  unfolding join
  system_text [] = none
  system_text (s ∷ ss) = some (join "\n\n" (s ∷ ss))

  unfoldable pub message_list : J.Value → List J.Value
  message_list req = unwrap_or (J.field req "messages" >>=? J.as_array) []

  unfoldable pub body_fields : J.Value → String → ℕ → Split J.Value → Dict J.Value
  unfolding fields insert_some system_text max_tokens_of
  body_fields req model default_max_tokens parts =
      insert_some "stream" J.boolean (J.field req "stream" >>=? J.as_bool) (
        insert_some "top_p" J.from_f64 (J.field req "top_p" >>=? J.as_f64) (
          insert_some "temperature" J.from_f64 (J.field req "temperature" >>=? J.as_f64) (
            insert_some "system" J.string (system_text parts.system_parts) (
              fields (
                ("model", J.string model)
                ∷ ("messages", J.array parts.messages)
                ∷ ("max_tokens", J.from_u64 (max_tokens_of req default_max_tokens))
                ∷ [])))))

  -- The body, as the fields of an object.
  unfoldable pub openai_to_anthropic : J.Value → ℕ → Result (Dict J.Value) Error
  unfolding refuse_controls split_messages message_list body_fields
  openai_to_anthropic req default_max_tokens = do
    model ← ok_or (text_at req "model") (bad_request "missing model")
    refuse_controls req controls
    parts ← split_messages (message_list req)
    ok (body_fields req model default_max_tokens parts)
