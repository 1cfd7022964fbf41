-- ===== src/Providers/Sse/Frames.antt =====
-- crates/moaray-providers/src/anthropic_sse.rs: the frames that a client gets.
use moaray.Base.{ℕ, ◌≡◌, refl, sym, ap, ◌∙◌, String, List, [], ◌∷◌, ◌++◌, map, map-append}
use mathlib.Core.List.{append-nil, append_assoc}
use moaray.Base.Result.{ok, err, ◌>>=◌, Passed, passed}
use moaray.Core.Json.{Json}
use moaray.Providers.Wire.{Wire}
use moaray.Providers.Sse.{SseEvent, SseParser, new_parser, push}
use moaray.Providers.Sse.Chunks.{push-append}
use moaray.Providers.Sse.Translate.{
  Progress, Item, initial, Effect, on_event, Steps, then_steps, run_events, emitted, then_stream,
  after_push, stream, translate,
}

module _ (J : Json) (W : Wire J) (model : String) where
  abbrev continued : Steps J W model → (Progress → Steps J W model) → Steps J W model
  continued (frames, err e) k = (frames, err e)
  continued (frames, ok h) k = (frames ++ (k h).0, (k h).1)

  continued_prepend :
      (fs : List (List ℕ)) (t : Steps J W model) (k : Progress → Steps J W model)
      → ◌≡◌ {A = Steps J W model}
          (fs ++ (continued t k).0, (continued t k).1)
          (continued (fs ++ t.0, t.1) k)
  continued_prepend fs (frames, err e) k = refl
  continued_prepend fs (frames, ok h) k =
      ap (λ x. (x, (k h).1)) (sym (append_assoc fs frames (k h).0))

  continued_first :
      (s : Effect J W model) (f k : Progress → Steps J W model)
      → then_steps J W model s (λ h. continued (f h) k) ≡ continued (then_steps J W model s f) k
  continued_first (err e) f k = refl
  continued_first (ok s) f k = continued_prepend s.1 (f s.0) k

  then_steps_same :
      (s : Effect J W model) (f k : Progress → Steps J W model)
      → ((h : Progress) → f h ≡ k h)
      → then_steps J W model s f ≡ then_steps J W model s k
  then_steps_same (err e) f k same = refl
  then_steps_same (ok s) f k same = ap (λ t. (s.1 ++ t.0, t.1)) (same s.0)

  run_events-append :
      (g : Progress) (xs ys : List SseEvent)
      → run_events J W model g (xs ++ ys)
        ≡ continued (run_events J W model g xs) (λ h. run_events J W model h ys)
  unfolding run_events
  run_events-append g [] ys = refl
  run_events-append g (x ∷ xs) ys =
      then_steps_same (on_event J W model g x) _ _ (λ h. run_events-append h xs ys)
      ∙ continued_first (on_event J W model g x) (λ h. run_events J W model h xs)
          (λ h. run_events J W model h ys)

  then_stream_prepend :
      (fs : List (List ℕ)) (t : Steps J W model) (k : Progress → List Item)
      → then_stream J W model (fs ++ t.0, t.1) k ≡ emitted J W model fs ++ then_stream J W model t k
  then_stream_prepend fs (frames, err e) k =
      ap (λ x. x ++ err e ∷ []) (map-append ok fs frames)
      ∙ append_assoc (map ok fs) (map ok frames) (err e ∷ [])
  then_stream_prepend fs (frames, ok h) k =
      ap (λ x. x ++ k h) (map-append ok fs frames) ∙ append_assoc (map ok fs) (map ok frames) (k h)

  then_stream-continued :
      (t : Steps J W model) (f : Progress → Steps J W model) (k : Progress → List Item)
      → then_stream J W model (continued t f) k
        ≡ then_stream J W model t (λ h. then_stream J W model (f h) k)
  then_stream-continued (frames, err e) f k = refl
  then_stream-continued (frames, ok h) f k = then_stream_prepend frames (f h) k

  then_stream_same :
      (t : Steps J W model) (f k : Progress → List Item)
      → ((h : Progress) → f h ≡ k h)
      → then_stream J W model t f ≡ then_stream J W model t k
  then_stream_same (frames, err e) f k same = refl
  then_stream_same (frames, ok h) f k same = ap (λ x. emitted J W model frames ++ x) (same h)

  stream_pushed :
      (p : SseParser) (g : Progress) (a : List ℕ) (items : List Item)
      {s : SseParser × List SseEvent}
      → push J W p a ≡ ok s
      → stream J W model p g (ok a ∷ items)
        ≡ then_stream J W model (run_events J W model g s.1) (λ h. stream J W model s.0 h items)
  unfolding stream
  stream_pushed p g a items e =
      ap
        (λ m. after_push J W model m (λ q events.
          then_stream J W model (run_events J W model g events) (λ h. stream J W model q h items)))
        e

  merged :
      (p : SseParser) (g : Progress) (a b : List ℕ) (items : List Item)
      {s : SseParser × List SseEvent}
      → push J W p (a ++ b) ≡ ok s
      → stream J W model p g (ok a ∷ ok b ∷ items) ≡ stream J W model p g (ok (a ++ b) ∷ items)
  merged p g a b items {s} e =
      stream_pushed p g a (ok b ∷ items) first.first
      ∙ then_stream_same (run_events J W model g first.value.1) _ _
          (λ h. stream_pushed first.value.0 h b items second.first)
      ∙ sym (
          then_stream-continued (run_events J W model g first.value.1)
            (λ h. run_events J W model h second.value.1)
            (λ h. stream J W model second.value.0 h items))
      ∙ ap (λ t. then_stream J W model t (λ h. stream J W model second.value.0 h items))
          (sym (run_events-append g first.value.1 second.value.1))
      ∙ sym (stream_pushed p g (a ++ b) items (e ∙ sym second.second))
    where
      first : Passed (push J W p a) (λ x. push J W x.0 b >>= λ q. ok (q.0, x.1 ++ q.1)) s
      first = passed _ (push J W p a) (sym (push-append J W p a b) ∙ e)

      second : Passed (push J W first.value.0 b) (λ q. ok (q.0, first.value.1 ++ q.1)) s
      second = passed _ (push J W first.value.0 b) first.second

  pushed_prefix :
      (p : SseParser) (a b : List ℕ) {s : SseParser × List SseEvent}
      → push J W p (a ++ b) ≡ ok s
      → Passed (push J W p a) (λ x. push J W x.0 b >>= λ q. ok (q.0, x.1 ++ q.1)) s
  pushed_prefix p a b e = passed _ (push J W p a) (sym (push-append J W p a b) ∙ e)

  abbrev pub concat : List (List ℕ) → List ℕ
  concat [] = []
  concat (c ∷ cs) = c ++ concat cs

  one_chunk :
      (p : SseParser) (g : Progress) (a : List ℕ) (cs : List (List ℕ)) (items : List Item)
      {s : SseParser × List SseEvent}
      → push J W p (a ++ concat cs) ≡ ok s
      → stream J W model p g (ok a ∷ (map ok cs ++ items))
        ≡ stream J W model p g (ok (a ++ concat cs) ∷ items)
  one_chunk p g a [] items e = ap (λ x. stream J W model p g (ok x ∷ items)) (sym (append-nil a))
  one_chunk p g a (c ∷ cs) items {s} e =
      merged p g a c (map ok cs ++ items) (pushed_prefix p (a ++ c) (concat cs) whole).first
      ∙ one_chunk p g (a ++ c) cs items whole
      ∙ ap (λ x. stream J W model p g (ok x ∷ items)) (append_assoc a c (concat cs))
    where
      whole : push J W p ((a ++ c) ++ concat cs) ≡ ok s
      whole = ap (push J W p) (append_assoc a c (concat cs)) ∙ e

  -- The translation sees the bytes of the upstream and not its chunks: whatever chunks bytes come in,
  -- the frames are the same as when all of them come at once, provided that every complete line of
  -- them is UTF-8; and so is what follows them.
  pub translate-chunks :
      (a : List ℕ) (cs : List (List ℕ)) (items : List Item) {s : SseParser × List SseEvent}
      → push J W new_parser (a ++ concat cs) ≡ ok s
      → translate J W model (ok a ∷ (map ok cs ++ items))
        ≡ translate J W model (ok (a ++ concat cs) ∷ items)
  unfolding translate
  translate-chunks a cs items e = one_chunk new_parser initial a cs items e
