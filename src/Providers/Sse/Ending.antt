-- ===== src/Providers/Sse/Ending.antt =====
-- crates/moaray-providers/src/anthropic_sse.rs: how the stream that a client gets ends.
use moaray.Base.{
  ℕ, ◌≡◌, refl, sym, ap, subst, ◌∙◌, ◌⊎◌, inl, inr, String, Bool, true, false, if◌then◌else◌,
  Option, none, some, List, [], ◌∷◌, ◌++◌, map, map-append, Bool-cases,
}
use mathlib.Core.List.{append_assoc}
use moaray.Base.Result.{Result, ok, err}
use moaray.Core.Error.{Error}
use moaray.Core.Json.{Json}
use moaray.Providers.Wire.{Wire}
use moaray.Providers.Sse.{SseEvent, SseParser, new_parser, push}
use moaray.Providers.Sse.Translate.{
  Progress, Item, initial, done, sse_frame, finish_frames, Effect, on_message_start, on_block_start,
  on_block_delta, on_message_delta, on_message_stop, on_json, on_payload, on_event, Steps,
  then_steps, run_events, emitted, closing, then_stream, after_push, stream, translate,
}

-- The element stands in the list.
pub record Within {A : Type 0} (x : A) (xs : List A) : Type 0 where
  pub before : List A
  pub after : List A
  pub split : xs ≡ before ++ x ∷ after

Within-later : {A : Type 0} {x : A} (fs : List A) {xs : List A} → Within x xs → Within x (fs ++ xs)
Within-later {x = x} fs w = record {
  before = fs ++ w.before;
  after = w.after;
  split = ap (λ y. fs ++ y) w.split ∙ sym (append_assoc fs w.before (x ∷ w.after));
}

Within-front : {A : Type 0} {x : A} {fs : List A} (xs : List A) → Within x fs → Within x (fs ++ xs)
Within-front {x = x} xs w = record {
  before = w.before;
  after = w.after ++ xs;
  split = ap (λ y. y ++ xs) w.split ∙ append_assoc w.before (x ∷ w.after) xs;
}

module _ (J : Json) (W : Wire J) (model : String) where
  -- An event leaves the flag alone, closes the stream with its frames, or ends it with an error.
  data Marks (g : Progress) : Effect J W model → Type 0 where
    fails : {e : Error} → Marks g (err e)
    keeps : {s : Progress × List (List ℕ)} → s.0.done_sent ≡ g.done_sent → Marks g (ok s)
    closes : {s : Progress × List (List ℕ)} → Within (done J W model) s.1 → Marks g (ok s)

  either :
      (g : Progress) (b : Bool) (x y : Effect J W model)
      → Marks g x
      → Marks g y
      → Marks g (if b then x else y)
  either g true x y m n = m
  either g false x y m n = n

  block_start-Marks : (g : Progress) (v : J.Value) → Marks g (on_block_start J W model g v)
  unfolding on_block_start
  block_start-Marks g v = either g _ _ _ (keeps refl) fails

  block_delta-Marks : (g : Progress) (v : J.Value) → Marks g (on_block_delta J W model g v)
  unfolding on_block_delta
  block_delta-Marks g v = either g _ _ _ (keeps refl) fails

  stop-Marks : (g : Progress) → Marks g (on_message_stop J W model g)
  unfolding on_message_stop finish_frames
  stop-Marks g = closes (record { before = sse_frame J W model _ ∷ []; after = []; split = refl })

  start-Marks : (g : Progress) (v : J.Value) → Marks g (on_message_start J W model g v)
  unfolding on_message_start
  start-Marks g v = keeps refl

  delta-Marks : (g : Progress) (v : J.Value) → Marks g (on_message_delta J W model g v)
  unfolding on_message_delta
  delta-Marks g v = keeps refl

  on_json-Marks : (g : Progress) (ty : String) (v : J.Value) → Marks g (on_json J W model g ty v)
  unfolding on_json
  on_json-Marks g ty v = either g _ _ _ (start-Marks g v) (
      either g _ _ _ (block_start-Marks g v) (
        either g _ _ _ (block_delta-Marks g v)
          (either g _ _ _ (delta-Marks g v) (either g _ _ _ (stop-Marks g) (keeps refl)))))

  payload-Marks :
      (g : Progress) (ev : SseEvent) (o : Option J.Value) → Marks g (on_payload J W model g ev o)
  payload-Marks g ev none = keeps refl
  payload-Marks g ev (some v) = on_json-Marks g _ v

  on_event-Marks : (g : Progress) (ev : SseEvent) → Marks g (on_event J W model g ev)
  unfolding on_event
  on_event-Marks g ev = either g _ _ _ (keeps refl) (payload-Marks g ev _)

  -- After frames the stream is closed only if it was before, or if they close it.
  data Follows (was : Bool) : Steps J W model → Type 0 where
    failed : {frames : List (List ℕ)} {e : Error} → Follows was (frames, err e)
    passes :
        {frames : List (List ℕ)} {h : Progress}
        → (h.done_sent ≡ true → (was ≡ true) ⊎ Within (done J W model) frames)
        → Follows was (frames, ok h)

  later-Follows :
      {was : Bool} (fs : List (List ℕ)) {t : Steps J W model}
      → Follows was t
      → Follows was (fs ++ t.0, t.1)
  later-Follows fs failed = failed
  later-Follows fs (passes f) =
      passes (λ d. elim (f d) [ inl w ↦ inl w | inr w ↦ inr (Within-later fs w) ])

  closed-Follows :
      {was : Bool} {fs : List (List ℕ)} (t : Steps J W model)
      → Within (done J W model) fs
      → Follows was (fs ++ t.0, t.1)
  closed-Follows (frames, err e) w = failed
  closed-Follows (frames, ok h) w = passes (λ d. inr (Within-front frames w))

  then_steps-Follows :
      (g : Progress) {s : Effect J W model} (k : Progress → Steps J W model)
      → Marks g s
      → ((h : Progress) → Follows h.done_sent (k h))
      → Follows g.done_sent (then_steps J W model s k)
  then_steps-Follows g k fails f = failed
  then_steps-Follows g k (keeps {s} e) f =
      later-Follows s.1 (subst (λ b. Follows b (k s.0)) e (f s.0))
  then_steps-Follows g k (closes {s} w) f = closed-Follows (k s.0) w

  run_events-Follows :
      (g : Progress) (evs : List SseEvent) → Follows g.done_sent (run_events J W model g evs)
  unfolding run_events
  run_events-Follows g [] = passes (λ h. inl h)
  run_events-Follows g (ev ∷ evs) =
      then_steps-Follows g _ (on_event-Marks g ev) (λ h. run_events-Follows h evs)

  -- Frames and one error behind them, or frames that close the stream unless it was closed before.
  data Ends (was : Bool) (out : List Item) : Type 0 where
    cut : (frames : List (List ℕ)) (e : Error) → out ≡ map ok frames ++ err e ∷ [] → Ends was out
    whole :
        (frames : List (List ℕ))
        → out ≡ map ok frames
        → (was ≡ true) ⊎ Within (done J W model) frames
        → Ends was out

  after_frames :
      {was : Bool} (fs : List (List ℕ)) (h : Progress) (out : List Item)
      → (h.done_sent ≡ true → (was ≡ true) ⊎ Within (done J W model) fs)
      → Ends h.done_sent out
      → Ends was (emitted J W model fs ++ out)
  after_frames fs h out f (cut frames e p) = cut (fs ++ frames) e (
      ap (λ x. map ok fs ++ x) p
      ∙ sym (append_assoc (map ok fs) (map ok frames) (err e ∷ []))
      ∙ ap (λ x. x ++ err e ∷ []) (sym (map-append ok fs frames)))
  after_frames fs h out f (whole frames p closed) =
      whole (fs ++ frames) (ap (λ x. map ok fs ++ x) p ∙ sym (map-append ok fs frames))
        (elim closed [
          | inr w ↦ inr (Within-later fs w)
          | inl d ↦ elim (f d) [ inl w ↦ inl w | inr w ↦ inr (Within-front frames w) ]
        ])

  then_stream-Ends :
      {was : Bool} {t : Steps J W model} (k : Progress → List Item)
      → Follows was t
      → ((h : Progress) → Ends h.done_sent (k h))
      → Ends was (then_stream J W model t k)
  then_stream-Ends k (failed {frames} {e}) f = cut frames e refl
  then_stream-Ends k (passes {frames} {h} g) f = after_frames frames h (k h) g (f h)

  closing-Ends : (g : Progress) → Ends g.done_sent (closing J W model g)
  unfolding closing finish_frames
  closing-Ends g = elim (Bool-cases g.done_sent) [
    | inl closed ↦ whole [] (rw closed refl) (inl closed)
    | inr not_yet ↦
        whole (finish_frames J W model g) (rw not_yet refl)
          (inr (record { before = sse_frame J W model _ ∷ []; after = []; split = refl }))
  ]

  after_push-Ends :
      {was : Bool} (m : Result (SseParser × List SseEvent) Error)
      (k : SseParser → List SseEvent → List Item)
      → ((p : SseParser) (events : List SseEvent) → Ends was (k p events))
      → Ends was (after_push J W model m k)
  after_push-Ends (err e) k f = cut [] e refl
  after_push-Ends (ok s) k f = f s.0 s.1

  stream-Ends :
      (p : SseParser) (g : Progress) (items : List Item)
      → Ends g.done_sent (stream J W model p g items)
  unfolding stream
  stream-Ends p g [] = closing-Ends g
  stream-Ends p g (err e ∷ items) = cut [] e refl
  stream-Ends p g (ok bytes ∷ items) =
      after_push-Ends (push J W p bytes) _
        (λ q events. then_stream-Ends _ (run_events-Follows g events) (λ h. stream-Ends q h items))

  -- How a client's stream may look: frames, then one error and nothing behind it; or frames alone, the
  -- terminal frame (`done`) among them.
  pub data IsEnded (out : List Item) : Type 0 where
    refused : (frames : List (List ℕ)) (e : Error) → out ≡ map ok frames ++ err e ∷ [] → IsEnded out
    completed :
        (frames : List (List ℕ))
        → out ≡ map ok frames
        → Within (done J W model) frames
        → IsEnded out

  -- Whatever the upstream sends and wherever it breaks off, the client's stream is ended properly: it
  -- holds an error at its end and nowhere else, or it holds none and the terminal frame (`done`).
  pub translate-IsEnded : (items : List Item) → IsEnded (translate J W model items)
  unfolding translate
  translate-IsEnded items = elim (stream-Ends new_parser initial items) [
    | cut frames e p ↦ refused frames e p
    | whole frames p (inl closed) ↦ absurd (false-ne-true closed)
    | whole frames p (inr w) ↦ completed frames p w
  ]
    where
      false-ne-true : false ≡ true → ⊥
      false-ne-true h = cc
