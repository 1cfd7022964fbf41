-- ===== src/Providers/Sse.antt =====
-- crates/moaray-providers/src/anthropic_sse.rs: the incremental parser of server-sent events, and the
-- translation of an Anthropic stream into OpenAI chunks.
pub mod Lines
pub mod Chunks
pub mod Translate
pub mod Frames
pub mod Ending
use moaray.Base.{
  ℕ, zero, suc, String, str_append, str_eq, Bool, true, false, ◌==◌, if◌then◌else◌, Option, none,
  some, List, [], ◌∷◌, ◌++◌, length, is_some, ◌&&◌, ◌||◌, not,
}
use moaray.Base.Result.{Result, ok, err, ◌>>=◌}
use moaray.Base.Text.{strip_prefix, is_empty}
use moaray.Core.Error.{Error, upstream_error}
use moaray.Core.Json.{Json}
use moaray.Providers.Wire.{Wire}

pub record SseEvent : Type 0 where
  pub event : Option String
  pub payload : String

pub record SseParser : Type 0 where
  pub buf : List ℕ
  pub cur : SseEvent

abbrev pub no_event : SseEvent
no_event = record { event = none; payload = "" }

-- `SseParser::default`.
abbrev pub new_parser : SseParser
new_parser = record { buf = []; cur = no_event }

-- The bytes before the first line feed and those behind it.
unfoldable pub split_line : List ℕ → Option (List ℕ × List ℕ)
split_line [] = none
split_line (b ∷ bs) =
    let later = elim (split_line bs) as (λ o. Option (List ℕ × List ℕ)) [
      | none ↦ none
      | some p ↦ some (b ∷ p.0, p.1)
    ] in
    if b == b'\n' then some ([], bs) else later

unfoldable pub drop_cr : List ℕ → List ℕ
drop_cr [] = []
drop_cr (b ∷ []) = if b == b'\r' then [] else b ∷ []
drop_cr (b ∷ c ∷ cs) = b ∷ drop_cr (c ∷ cs)

module _ (J : Json) (W : Wire J) where
  abbrev add_data : SseEvent → String → SseEvent
  add_data cur rest = record cur {
    payload =
        str_append cur.payload
          (str_append (if is_empty cur.payload then "" else "\n") (W.trim_start rest));
  }

  -- The event that is being read after a line that is not empty.
  unfoldable pub field_line : SseEvent → String → SseEvent
  field_line cur line = elim (strip_prefix "event:" line) [
    | some rest ↦ record cur { event = some (W.trim rest) }
    | none ↦ elim (strip_prefix "data:" line) [ some rest ↦ add_data cur rest | none ↦ cur ]
  ]

  -- An empty line dispatches the event, if there is one.
  unfoldable pub handle_line : SseEvent → String → SseEvent × List SseEvent
  unfolding field_line
  handle_line cur line =
      if is_empty line
      then (if is_some cur.event || not (is_empty cur.payload)
          then (no_event, cur ∷ [])
          else (cur, []))
      else (field_line cur line, [])

  -- The `while let` loop: each round takes a line off the buffer, so that the bytes bound the rounds.
  unfoldable pub drain_lines :
      ℕ → SseParser → List SseEvent → Result (SseParser × List SseEvent) Error
  drain_lines zero p out = ok (p, out)
  drain_lines (suc fuel) p out = elim (split_line p.buf) [
    | none ↦ ok (p, out)
    | some s ↦ elim (W.from_utf8 (drop_cr s.0)) [
      | none ↦ err upstream_error
      | some line ↦
          drain_lines fuel (record { buf = s.1; cur = (handle_line p.cur line).0 })
            (out ++ (handle_line p.cur line).1)
    ]
  ]

  unfoldable pub push : SseParser → List ℕ → Result (SseParser × List SseEvent) Error
  unfolding drain_lines
  push p chunk = drain_lines (suc (length (p.buf ++ chunk))) (record p { buf = p.buf ++ chunk }) []
