-- ===== src/Providers/Examples.antt =====
-- Witnesses and tests of the provider adapters, over the JSON values of Core.Json.Reference and a few
-- letters of ASCII.
use Prim.Native.Char.{code}
use moaray.Base.{
  ℕ, ◌≡◌, refl, ◌⊎◌, String, str_append, str_eq, true, false, ◌==◌, if◌then◌else◌, Option, none,
  some, List, [], ◌∷◌, ◌++◌, All,
}
use moaray.Base.Int.{pos}
use moaray.Base.Dict
use moaray.Base.Dict.{Dict}
use moaray.Base.Result.{ok, err, ok_or, ◌>>=◌}
use moaray.Core.Error.{unsupported}
use moaray.Core.Json.{Json}
use moaray.Core.Json.Reference.{
  Value, text, table, entry, end, sequence, item, nil, reference, field_of, items_of,
}
use moaray.Providers.Wire.{Wire}
use moaray.Base.Text.{strip_prefix}
use moaray.Providers.Status.{◌>>=?◌}
use moaray.Providers.Request.{openai_to_anthropic, kind_of}
use moaray.Providers.Completion.{
  FirstOther, IsText, spoken, answer, block_refusal, anthropic_to_openai, anthropic_to_openai-cases,
}
use moaray.Providers.Faithful.{Translates, openai_to_anthropic-Translates}
use moaray.Providers.Sse.{new_parser, push, split_line, drop_cr, handle_line}
use moaray.Providers.Sse.Chunks.{push-append}
use moaray.Providers.Sse.Translate.{translate}
use moaray.Providers.Sse.Frames.{translate-chunks}
use moaray.Providers.Sse.Ending.{IsEnded, translate-IsEnded}

abbrev stop_value : Value
stop_value = table (entry "type" (text "message_stop") end)

abbrev known : String → Option Value
known s = if str_eq s "x" then some stop_value else none

abbrev Sample : Json
Sample = reference known

abbrev letter : ℕ → String
letter b =
    if b == b'd'
    then "d"
    else if b == b'a'
    then "a"
    else if b == b't'
    then "t"
    else if b == b':'
    then ":"
    else if b == b'x'
    then "x"
    else "?"

abbrev decode : List ℕ → String
decode [] = ""
decode (b ∷ bs) = str_append (letter b) (decode bs)

abbrev encode : String → List ℕ
encode String.[] = []
encode (String.◌∷◌ c s) = code c ∷ encode s

abbrev ascii : Wire Sample
ascii = record {
  from_utf8 = λ bs. some (decode bs);
  utf8 = encode;
  trim = λ s. s;
  trim_start = λ s. s;
  from_slice = λ bs. ok_or (known (decode bs)) "expected value";
  to_vec = λ v. encode "{}";
  request_value = λ r. none;
  response_of_value = λ v. none;
  send = λ p. err (record { is_timeout = false; is_connect = true });
}

abbrev request : Value
request = table (
    entry "model" (text "m") (
      entry "messages"
        (sequence (
          item (table (entry "role" (text "system") (entry "content" (text "be brief") end)))
            (item (table (entry "content" (text "hello") end)) nil)))
        end))

abbrev sent : Dict Value
sent =
    ("max_tokens", Value.number (pos 16))
    ∷ (
      "messages",
      sequence (item (table (entry "content" (text "hello") (entry "role" (text "user") end))) nil),
    )
    ∷ ("model", text "m")
    ∷ ("system", text "be brief")
    ∷ []

sent_test : openai_to_anthropic Sample request 16 ≡ ok sent
unfolding openai_to_anthropic field_of Dict.get
sent_test = refl

openai_to_anthropic-Translates_example : Translates Sample request 16 sent
openai_to_anthropic-Translates_example = openai_to_anthropic-Translates Sample request 16 sent_test

abbrev greeting : Value
greeting = table (entry "type" (text "text") (entry "text" (text "hi") end))

abbrev message : Value
message = table (entry "content" (sequence (item greeting nil)) end)

message_blocks : (field_of message "content" >>=? items_of) ≡ some (greeting ∷ [])
unfolding field_of Dict.get
message_blocks = refl

anthropic_to_openai-cases_example :
    (All (IsText Sample) (greeting ∷ [])
      × (anthropic_to_openai Sample message "m"
          ≡ ok (answer Sample message "m" (spoken Sample (greeting ∷ [])))))
    ⊎ ((b : Value) × (FirstOther Sample (greeting ∷ []) b
          × (anthropic_to_openai Sample message "m"
              ≡ err (unsupported (block_refusal Sample (kind_of Sample b))))))
anthropic_to_openai-cases_example =
    anthropic_to_openai-cases Sample message "m" (greeting ∷ []) message_blocks

abbrev half : List ℕ
half = encode "dat"

abbrev other_half : List ℕ
other_half = b'a' ∷ b':' ∷ b'x' ∷ b'\n' ∷ b'\n' ∷ []

push-append_example : push Sample ascii new_parser (half ++ other_half) ≡ (
    push Sample ascii new_parser half >>= λ s.
    push Sample ascii s.0 other_half >>= λ q. ok (q.0, s.1 ++ q.1))
push-append_example = push-append Sample ascii new_parser half other_half

pushed_test :
    push Sample ascii new_parser (half ++ (other_half ++ []))
    ≡ ok (new_parser, record { event = none; payload = "x" } ∷ [])
unfolding push split_line drop_cr handle_line strip_prefix
pushed_test = refl

translate-chunks_example :
    translate Sample ascii "m" (ok half ∷ (ok other_half ∷ [] ++ []))
    ≡ translate Sample ascii "m" (ok (half ++ (other_half ++ [])) ∷ [])
translate-chunks_example = translate-chunks Sample ascii "m" half (other_half ∷ []) [] pushed_test

translate-IsEnded_example :
    IsEnded Sample ascii "m" (translate Sample ascii "m" (ok half ∷ ok other_half ∷ []))
translate-IsEnded_example = translate-IsEnded Sample ascii "m" (ok half ∷ ok other_half ∷ [])
