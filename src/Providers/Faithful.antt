-- ===== src/Providers/Faithful.antt =====
-- crates/moaray-providers/src/anthropic_map.rs: what the Anthropic request keeps of the OpenAI one.
use moaray.Base.{
  ℕ, ◌≡◌, refl, sym, ap, subst, ◌∙◌, String, str_eq, Bool, true, false, not, Option, none, some,
  List, [], ◌∷◌, map, keep, All, unwrap_or, Bool-cases, inl, inr,
}
use moaray.Base.Dict
use moaray.Base.Dict.{Dict}
use moaray.Base.Result.{Result, ok, ◌>>=◌, ◌>>◌, fail_if, ok_or, passed, not-failed, ok-injective}
use moaray.Core.Error.{Error, bad_request}
use moaray.Core.Json.{Json}
use moaray.Providers.Status.{◌>>=?◌, succeeded}
use moaray.Providers.Request.{
  Split, text_at, content_to_text, is_set, refuse_controls, controls, turn, role_check,
  split_messages, add_message, message_list, system_text, max_tokens_of, insert_some, fields,
  body_fields, openai_to_anthropic,
}

module _ (J : Json) where
  abbrev pub role_of : J.Value → String
  role_of m = unwrap_or (text_at J m "role") "user"

  abbrev pub said : J.Value → String
  said m = unwrap_or (succeeded (content_to_text J (J.field m "content"))) ""

  abbrev pub is_system : J.Value → Bool
  is_system m = str_eq (role_of m) "system"

  -- The messages that are no system prompt, and the texts of those that are.
  abbrev pub turns : List J.Value → List J.Value
  turns ms = map (λ m. turn J (role_of m) (said m)) (keep (λ m. not (is_system m)) ms)

  abbrev pub prompts : List J.Value → List String
  prompts ms = map said (keep is_system ms)

  -- What an accepted request and the body sent for it have to do with each other.
  pub record Translates (req : J.Value) (default_max_tokens : ℕ) (out : Dict J.Value) : Type 0 where
    pub no_controls : All (λ k. is_set J req k ≡ false) (controls J)
    pub model : Dict.get out "model" ≡ (text_at J req "model" >>=? λ s. some (J.string s))
    pub messages : Dict.get out "messages" ≡ some (J.array (turns (message_list J req)))
    pub system :
        Dict.get out "system"
        ≡ (system_text J (prompts (message_list J req)) >>=? λ s. some (J.string s))
    pub max_tokens :
        Dict.get out "max_tokens" ≡ some (J.from_u64 (max_tokens_of J req default_max_tokens))

  controls_pass :
      (req : J.Value) (ks : List String)
      → refuse_controls J req ks ≡ ok tt
      → All (λ k. is_set J req k ≡ false) ks
  unfolding refuse_controls
  controls_pass req [] h = tt
  controls_pass req (k ∷ ks) h =
      let p = passed _ (fail_if (is_set J req k) _) h in
      (not-failed (is_set J req k) _ p.first, controls_pass req ks p.second)

  added :
      (m : J.Value) (ms : List J.Value) {text : String}
      → content_to_text J (J.field m "content") ≡ ok text
      → add_message J (role_of m) text (record { system_parts = prompts ms; messages = turns ms })
        ≡ record { system_parts = prompts (m ∷ ms); messages = turns (m ∷ ms) }
  added m ms e = elim (Bool-cases (is_system m)) [
    | inl same ↦ rw (same, e) refl
    | inr other ↦ rw (other, e) refl
  ]

  abbrev add_rest : J.Value → List J.Value → String → Result (Split J.Value) Error
  add_rest m ms text = split_messages J ms >>= λ r. ok (add_message J (role_of m) text r)

  abbrev add_text : J.Value → List J.Value → String → Result (Split J.Value) Error
  add_text m ms text = role_check J (role_of m) >> add_rest m ms text

  split_is :
      (ms : List J.Value) {parts : Split J.Value}
      → split_messages J ms ≡ ok parts
      → parts ≡ record { system_parts = prompts ms; messages = turns ms }
  unfolding split_messages
  split_is [] h = sym (ok-injective h)
  split_is (m ∷ ms) h =
      let text = passed (add_text m ms) (content_to_text J (J.field m "content")) h in
      let known = passed (λ u. add_rest m ms text.value) (role_check J (role_of m)) text.second in
      let rest =
        passed (λ r. ok (add_message J (role_of m) text.value r)) (split_messages J ms)
          known.second in
      sym (ok-injective rest.second)
      ∙ ap (add_message J (role_of m) text.value) (split_is ms rest.first)
      ∙ added m ms text.first

  get-insert_some_other :
      {A : Type 0} (k : String) (wrap : A → J.Value) (o : Option A) (out : Dict J.Value)
      (j : String)
      → str_eq k j ≡ false
      → Dict.get (insert_some J k wrap o out) j ≡ Dict.get out j
  unfolding insert_some
  get-insert_some_other k wrap none out j d = refl
  get-insert_some_other k wrap (some a) out j d = rw (Dict.get-insert out k j (wrap a), d)

  get-insert_some_self :
      {A : Type 0} (k : String) (wrap : A → J.Value) (o : Option A) (out : Dict J.Value)
      → str_eq k k ≡ true
      → Dict.get out k ≡ none
      → Dict.get (insert_some J k wrap o out) k ≡ (o >>=? λ a. some (wrap a))
  unfolding insert_some
  get-insert_some_self k wrap none out same absent = absent
  get-insert_some_self k wrap (some a) out same absent = rw (Dict.get-insert out k k (wrap a), same)

  fixed : J.Value → String → ℕ → Split J.Value → Dict J.Value
  fixed req model n parts = fields (
      ("model", J.string model)
      ∷ ("messages", J.array parts.messages)
      ∷ ("max_tokens", J.from_u64 (max_tokens_of J req n))
      ∷ [])

  with_system : J.Value → String → ℕ → Split J.Value → Dict J.Value
  with_system req model n parts =
      insert_some J "system" J.string (system_text J parts.system_parts) (fixed req model n parts)

  -- The optional controls stand under other keys.
  beside_options :
      (req : J.Value) (model : String) (n : ℕ) (parts : Split J.Value) (k : String)
      → str_eq "stream" k ≡ false
      → str_eq "top_p" k ≡ false
      → str_eq "temperature" k ≡ false
      → Dict.get (body_fields J req model n parts) k ≡ Dict.get (with_system req model n parts) k
  unfolding body_fields with_system fixed
  beside_options req model n parts k s p t =
      get-insert_some_other "stream" J.boolean _ _ k s
      ∙ get-insert_some_other "top_p" J.from_f64 _ _ k p
      ∙ get-insert_some_other "temperature" J.from_f64 _ _ k t

  fixed_is :
      (req : J.Value) (model : String) (n : ℕ) (parts : Split J.Value)
      → (Dict.get (fixed req model n parts) "model" ≡ some (J.string model))
        × ((Dict.get (fixed req model n parts) "messages" ≡ some (J.array parts.messages))
            × ((Dict.get (fixed req model n parts) "max_tokens"
                  ≡ some (J.from_u64 (max_tokens_of J req n)))
                × (Dict.get (fixed req model n parts) "system" ≡ none)))
  unfolding fixed fields Dict.get Dict.insert
  fixed_is req model n parts = (refl, (refl, (refl, refl)))

  spec_parts : J.Value → Split J.Value
  spec_parts req = record {
    system_parts = prompts (message_list J req);
    messages = turns (message_list J req);
  }

  fixed_beside :
      (req : J.Value) (model : String) (n : ℕ) (parts : Split J.Value) (k : String)
      → str_eq "system" k ≡ false
      → Dict.get (with_system req model n parts) k ≡ Dict.get (fixed req model n parts) k
  unfolding with_system
  fixed_beside req model n parts k d =
      get-insert_some_other "system" J.string (system_text J parts.system_parts)
        (fixed req model n parts) k d

  system_is :
      (req : J.Value) (model : String) (n : ℕ) (parts : Split J.Value)
      → Dict.get (with_system req model n parts) "system"
        ≡ (system_text J parts.system_parts >>=? λ s. some (J.string s))
  unfolding with_system
  system_is req model n parts =
      get-insert_some_self "system" J.string (system_text J parts.system_parts)
        (fixed req model n parts) refl (fixed_is req model n parts).1.1.1

  body-Translates :
      (req : J.Value) (model : String) (n : ℕ)
      → text_at J req "model" ≡ some model
      → refuse_controls J req (controls J) ≡ ok tt
      → Translates req n (body_fields J req model n (spec_parts req))
  unfolding spec_parts
  body-Translates req model n named allowed =
      let parts = spec_parts req in
      let beside = beside_options req model n parts in
      record {
        no_controls = controls_pass req (controls J) allowed;
        model =
            beside "model" refl refl refl
            ∙ fixed_beside req model n parts "model" refl
            ∙ (fixed_is req model n parts).0
            ∙ ap (λ o. o >>=? λ s. some (J.string s)) (sym named);
        messages =
            beside "messages" refl refl refl
            ∙ fixed_beside req model n parts "messages" refl
            ∙ (fixed_is req model n parts).1.0;
        system = beside "system" refl refl refl ∙ system_is req model n parts;
        max_tokens =
            beside "max_tokens" refl refl refl
            ∙ fixed_beside req model n parts "max_tokens" refl
            ∙ (fixed_is req model n parts).1.1.0;
      }

  after_controls : J.Value → ℕ → String → Result (Dict J.Value) Error
  after_controls req n model =
      split_messages J (message_list J req) >>= λ parts. ok (body_fields J req model n parts)

  after_model : J.Value → ℕ → String → Result (Dict J.Value) Error
  after_model req n model = refuse_controls J req (controls J) >> after_controls req n model

  named_is : {A : Type 0} (o : Option A) (e : Error) {a : A} → ok_or o e ≡ ok a → o ≡ some a
  named_is none e h = cc
  named_is (some b) e h = ap some (ok-injective h)

  -- The body that is sent for a request asks for the request's model, holds its turns in their order,
  -- with their roles and texts, and its system prompts joined, and a request that is accepted
  -- sets no tools and no response format.
  pub openai_to_anthropic-Translates :
      (req : J.Value) (default_max_tokens : ℕ) {out : Dict J.Value}
      → openai_to_anthropic J req default_max_tokens ≡ ok out
      → Translates req default_max_tokens out
  unfolding openai_to_anthropic after_model after_controls spec_parts
  openai_to_anthropic-Translates req n {out} h =
      let named =
        passed (after_model req n) (ok_or (text_at J req "model") (bad_request "missing model"))
          h in
      let allowed =
        passed (λ u. after_controls req n named.value) (refuse_controls J req (controls J))
          named.second in
      let parts =
        passed (λ p. ok (body_fields J req named.value n p)) (split_messages J (message_list J req))
          allowed.second in
      subst (Translates req n)
        (ap (body_fields J req named.value n) (sym (split_is (message_list J req) parts.first))
          ∙ ok-injective parts.second)
        (body-Translates req named.value n (named_is _ _ named.first) allowed.first)
