-- ===== src/Providers/Completion.antt =====
-- crates/moaray-providers/src/anthropic_map.rs: the OpenAI completion for an Anthropic message.
use moaray.Base.{
  ℕ, ◌+◌, ◌%◌, ◌^◌, ◌≡◌, ◌≢◌, str_eq_iff, refl, ◌⊎◌, inl, inr, String, str_append, str_eq, false,
  if◌then◌else◌, Option, none, some, List, [], ◌∷◌, ◌++◌, ap, All, unwrap_or, Bool-cases,
}
use moaray.Base.Dict.{Dict}
use moaray.Base.Result.{Result, ok, err, ◌>>=◌}
use moaray.Core.Error.{Error, unsupported}
use moaray.Core.Json.{Json}
use moaray.Providers.Status.{◌>>=?◌}
use moaray.Providers.Request.{fields, text_parts, text_at, kind_of}

unfoldable pub map_stop_reason : Option String → Option String
map_stop_reason none = none
map_stop_reason (some r) = if str_eq r "max_tokens" then some "length" else some "stop"

module _ (J : Json) where
  unfoldable pub usage_tokens : Option J.Value → ℕ × ℕ
  usage_tokens none = (0, 0)
  usage_tokens (some u) = (
    unwrap_or (J.field u "input_tokens" >>=? J.as_u64) 0,
    unwrap_or (J.field u "output_tokens" >>=? J.as_u64) 0,
  )

  abbrev pub block_refusal : String → String
  block_refusal ty = str_append "anthropic content block `" (str_append ty "` not supported in v1")

  unfoldable pub blocks_text : Option (List J.Value) → Result String Error
  unfolding text_parts
  blocks_text none = ok ""
  blocks_text (some blocks) = text_parts J block_refusal blocks

  abbrev pub choice : String → J.Value → J.Value → J.Value
  choice key said finish =
      J.object (fields (("index", J.from_u64 0) ∷ (key, said) ∷ ("finish_reason", finish) ∷ []))

  -- The sum of the counts is taken in 64 bits.
  unfoldable pub usage_value : ℕ × ℕ → J.Value
  unfolding fields
  usage_value (prompt_tokens, completion_tokens) = J.object (
      fields (
        ("prompt_tokens", J.from_u64 prompt_tokens)
        ∷ ("completion_tokens", J.from_u64 completion_tokens)
        ∷ ("total_tokens", J.from_u64 ((prompt_tokens + completion_tokens) % 2 ^ 64))
        ∷ []))

  abbrev pub completion : String → String → String → String → J.Value → Dict J.Value
  completion id model text finish usage = fields (
      ("id", J.string id)
      ∷ ("object", J.string "chat.completion")
      ∷ ("model", J.string model)
      ∷ (
        "choices",
        J.array (
            choice "message"
              (J.object (fields (("role", J.string "assistant") ∷ ("content", J.string text) ∷ [])))
              (J.string finish)
            ∷ []),
      )
      ∷ ("usage", usage)
      ∷ [])

  unfoldable pub anthropic_to_openai : J.Value → String → Result (Dict J.Value) Error
  unfolding blocks_text map_stop_reason usage_tokens usage_value fields
  anthropic_to_openai resp model = do
    text ← blocks_text (J.field resp "content" >>=? J.as_array)
    ok (
        completion (unwrap_or (text_at J resp "id") "chatcmpl-anthropic") model text
          (unwrap_or (map_stop_reason (text_at J resp "stop_reason")) "stop")
          (usage_value (usage_tokens (J.field resp "usage"))))

  abbrev chunk_of : String → String → J.Value → J.Value → J.Value
  chunk_of model id delta finish = J.object (
      fields (
        ("id", J.string id)
        ∷ ("object", J.string "chat.completion.chunk")
        ∷ ("model", J.string model)
        ∷ ("choices", J.array (choice "delta" delta finish ∷ []))
        ∷ []))

  unfoldable pub openai_delta_frame : String → String → String → J.Value
  unfolding fields
  openai_delta_frame model id content =
      chunk_of model id (J.object (fields (("content", J.string content) ∷ []))) J.null

  unfoldable pub openai_finish_frame : String → String → String → J.Value
  unfolding fields
  openai_finish_frame model id finish = chunk_of model id (J.object []) (J.string finish)

  -- What a list of blocks says: the texts of all of them, in order.
  abbrev pub spoken : List J.Value → String
  spoken [] = ""
  spoken (b ∷ bs) = str_append (unwrap_or (text_at J b "text") "") (spoken bs)

  abbrev pub IsText : J.Value → Type 0
  IsText b = kind_of J b ≡ "text"

  -- `b` is the first of the blocks that is no text.
  pub record FirstOther (bs : List J.Value) (b : J.Value) : Type 0 where
    pub before : List J.Value
    pub after : List J.Value
    pub split : bs ≡ before ++ b ∷ after
    pub texts : All IsText before
    pub other : kind_of J b ≢ "text"

  -- A list of texts is answered with their texts, any other list is refused with the kind of its first
  -- block that is no text.
  text_parts-cases :
      (refusal : String → String) (bs : List J.Value)
      → (All IsText bs × (text_parts J refusal bs ≡ ok (spoken bs)))
        ⊎ ((b : J.Value) × (FirstOther bs b
              × (text_parts J refusal bs ≡ err (unsupported (refusal (kind_of J b))))))
  unfolding text_parts
  text_parts-cases refusal [] = inl (tt, refl)
  text_parts-cases refusal (b ∷ bs) = elim (Bool-cases (str_eq (kind_of J b) "text")) [
    | inr other ↦ inr (
      b,
      (
        record { before = []; after = bs; split = refl; texts = tt; other = differs other },
        rw other refl,
      ),
    )
    | inl same ↦ elim (text_parts-cases refusal bs) [
      | inl rest ↦ inl (((str_eq_iff _ _).0 same, rest.0), rw (same, rest.1) refl)
      | inr (c, (first, later)) ↦ inr (
        c,
        (
          record {
            before = b ∷ first.before;
            after = first.after;
            split = ap (λ x. b ∷ x) first.split;
            texts = ((str_eq_iff _ _).0 same, first.texts);
            other = first.other;
          },
          rw (same, later) refl,
        ),
      )
    ]
  ]
    where
      differs : str_eq (kind_of J b) "text" ≡ false → kind_of J b ≢ "text"
      differs e same = cc (e, (str_eq_iff _ _).1 same)

  abbrev pub answer : J.Value → String → String → Dict J.Value
  answer resp model text =
      completion (unwrap_or (text_at J resp "id") "chatcmpl-anthropic") model text
        (unwrap_or (map_stop_reason (text_at J resp "stop_reason")) "stop")
        (usage_value (usage_tokens (J.field resp "usage")))

  -- A message whose content blocks are all texts becomes a completion that says all of them, in order;
  -- a message with any other block is refused, with the kind of the first such block, and
  -- never answered in part.
  pub anthropic_to_openai-cases :
      (resp : J.Value) (model : String) (blocks : List J.Value)
      → (J.field resp "content" >>=? J.as_array) ≡ some blocks
      → (All IsText blocks
          × (anthropic_to_openai resp model ≡ ok (answer resp model (spoken blocks))))
        ⊎ ((b : J.Value) × (FirstOther blocks b
              × (anthropic_to_openai resp model ≡ err (unsupported (block_refusal (kind_of J b))))))
  unfolding anthropic_to_openai blocks_text
  anthropic_to_openai-cases resp model blocks e = elim (text_parts-cases block_refusal blocks) [
    | inl all ↦ inl (all.0, rw (e, all.1) refl)
    | inr (b, some_other) ↦ inr (b, (some_other.0, rw (e, some_other.1) refl))
  ]
