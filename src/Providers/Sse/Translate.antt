-- ===== src/Providers/Sse/Translate.antt =====
-- crates/moaray-providers/src/anthropic_sse.rs: `translate`, from the chunks of an Anthropic stream to
-- the frames of an OpenAI stream.
use moaray.Base.{
  ℕ, String, str_append, str_eq, Bool, true, false, if◌then◌else◌, Option, none, some, List, [],
  ◌∷◌, ◌++◌, map, unwrap_or,
}
use moaray.Base.Result.{Result, ok, err}
use moaray.Base.Text.{is_empty}
use moaray.Core.Error.{Error, unsupported}
use moaray.Core.Json.{Json}
use moaray.Providers.Wire.{Wire}
use moaray.Providers.Status.{◌>>=?◌}
use moaray.Providers.Request.{text_at}
use moaray.Providers.Completion.{map_stop_reason, openai_delta_frame, openai_finish_frame}
use moaray.Providers.Sse.{SseEvent, SseParser, new_parser, push}

-- What the generator holds between two events.
pub record Progress : Type 0 where
  pub id : String
  pub finish : Option String
  pub done_sent : Bool

abbrev pub Item : Type 0
Item = Result (List ℕ) Error

abbrev pub initial : Progress
initial = record { id = "chatcmpl-anthropic"; finish = none; done_sent = false }

module _ (J : Json) (W : Wire J) (model : String) where
  unfoldable pub sse_frame : J.Value → List ℕ
  sse_frame v = W.utf8 (str_append "data: " (str_append (J.to_string v) "\n\n"))

  abbrev pub done : List ℕ
  done = W.utf8 "data: [DONE]\n\n"

  unfoldable pub finish_frames : Progress → List (List ℕ)
  unfolding sse_frame
  finish_frames g =
      sse_frame (openai_finish_frame J model g.id (unwrap_or g.finish "stop")) ∷ done ∷ []

  -- The frames of an event and the progress after it, or the error that ends the stream.
  abbrev pub Effect : Type 0
  Effect = Result (Progress × List (List ℕ)) Error

  abbrev refuse : String → String → String → Effect
  refuse before what after = err (unsupported (str_append before (str_append what after)))

  unfoldable pub on_message_start : Progress → J.Value → Effect
  on_message_start g v =
      ok (record g { id = unwrap_or (J.field v "message" >>=? λ m. text_at J m "id") g.id }, [])

  unfoldable pub on_block_start : Progress → J.Value → Effect
  on_block_start g v =
      let bt = unwrap_or (J.field v "content_block" >>=? λ c. text_at J c "type") "text" in
      if str_eq bt "text"
      then ok (g, [])
      else refuse "anthropic stream block `" bt "` not supported in v1"

  abbrev delta_frames : Progress → Option String → List (List ℕ)
  delta_frames g none = []
  delta_frames g (some t) = sse_frame (openai_delta_frame J model g.id t) ∷ []

  unfoldable pub on_block_delta : Progress → J.Value → Effect
  unfolding sse_frame
  on_block_delta g v =
      let dtype = unwrap_or (J.field v "delta" >>=? λ d. text_at J d "type") "text_delta" in
      if str_eq dtype "text_delta"
      then ok (g, delta_frames g (J.field v "delta" >>=? λ d. text_at J d "text"))
      else refuse "anthropic delta `" dtype "` not supported in v1"

  abbrev stop_finish : Progress → Option String → Option String
  stop_finish g none = g.finish
  stop_finish g (some r) = map_stop_reason (some r)

  unfoldable pub on_message_delta : Progress → J.Value → Effect
  on_message_delta g v = ok (
    record g { finish = stop_finish g (J.field v "delta" >>=? λ d. text_at J d "stop_reason") },
    [],
  )

  unfoldable pub on_message_stop : Progress → Effect
  unfolding finish_frames
  on_message_stop g = ok (record g { done_sent = true }, finish_frames g)

  unfoldable pub on_json : Progress → String → J.Value → Effect
  unfolding on_message_start on_block_start on_block_delta on_message_delta on_message_stop
  on_json g ev_type v =
      if str_eq ev_type "message_start"
      then on_message_start g v
      else if str_eq ev_type "content_block_start"
      then on_block_start g v
      else if str_eq ev_type "content_block_delta"
      then on_block_delta g v
      else if str_eq ev_type "message_delta"
      then on_message_delta g v
      else if str_eq ev_type "message_stop"
      then on_message_stop g
      else ok (g, [])

  abbrev event_type : SseEvent → J.Value → String
  event_type ev v = unwrap_or ev.event (unwrap_or (text_at J v "type") "")

  -- What the loop body does with the parsed payload; no payload is an event to skip.
  abbrev pub on_payload : Progress → SseEvent → Option J.Value → Effect
  on_payload g ev none = ok (g, [])
  on_payload g ev (some v) = on_json g (event_type ev v) v

  unfoldable pub on_event : Progress → SseEvent → Effect
  unfolding on_json
  on_event g ev =
      let text = W.trim ev.payload in
      if is_empty text then ok (g, []) else on_payload g ev (J.parse text)

  -- The frames that come out before the progress or the error that a step ends in.
  abbrev pub Steps : Type 0
  Steps = List (List ℕ) × Result Progress Error

  abbrev pub then_steps : Effect → (Progress → Steps) → Steps
  then_steps (err e) k = ([], err e)
  then_steps (ok s) k = (s.1 ++ (k s.0).0, (k s.0).1)

  -- `for ev in events`.
  unfoldable pub run_events : Progress → List SseEvent → Steps
  run_events g [] = ([], ok g)
  run_events g (ev ∷ evs) = then_steps (on_event g ev) (λ h. run_events h evs)

  abbrev pub emitted : List (List ℕ) → List Item
  emitted frames = map ok frames

  unfoldable pub closing : Progress → List Item
  unfolding finish_frames
  closing g = if g.done_sent then [] else emitted (finish_frames g)

  abbrev pub then_stream : Steps → (Progress → List Item) → List Item
  then_stream (frames, err e) k = emitted frames ++ err e ∷ []
  then_stream (frames, ok h) k = emitted frames ++ k h

  abbrev pub after_push :
      Result (SseParser × List SseEvent) Error → (SseParser → List SseEvent → List Item) → List Item
  after_push (err e) k = err e ∷ []
  after_push (ok s) k = k s.0 s.1

  -- The rest of the stream from a parser, a progress and the chunks that are still to come.
  unfoldable pub stream : SseParser → Progress → List Item → List Item
  stream p g [] = closing g
  stream p g (err e ∷ items) = err e ∷ []
  stream p g (ok bytes ∷ items) =
      after_push (push J W p bytes)
        (λ q events. then_stream (run_events g events) (λ h. stream q h items))

  unfoldable pub translate : List Item → List Item
  unfolding stream
  translate items = stream new_parser initial items
