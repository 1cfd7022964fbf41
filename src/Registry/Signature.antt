-- ===== src/Registry/Signature.antt =====
-- crates/moaray/src/registry.rs: what the signature of a provider says of its model.
use text.Mathlib.TextLemmas.{
  nil-append, cons-append, append-nil, append_assoc, append_cancel_left, append_cancel_right,
}
use moaray.Base.{
  ℕ, String, str_append, ◌≡◌, refl, sym, ap, subst, ◌∙◌, Option, none, some, List, [], ◌∷◌, ◌++◌,
  arith,
}
use moaray.Base.Text.{decimal}
use moaray.Base.Text.Segments.{
  Free, Free-append, is_free, is_free_sound, first_field, last_field, not-Free, head_eq,
}
use moaray.Base.Text.Digits.{decimal-Free, decimal-injective}
use moaray.Config.Runtime.{
  BreakerConfig, RetryConfig, RateLimit, ProviderType, openai_compat, anthropic, ModelConfig,
}
use moaray.Registry.{concat, debug_type, debug_number, show_limit, show_bool, provider_signature}

concat-append : (xs ys : List String) → concat (xs ++ ys) ≡ str_append (concat xs) (concat ys)
unfolding concat
concat-append [] ys = sym (nil-append (concat ys))
concat-append (x ∷ xs) ys =
    ap (str_append x) (concat-append xs ys) ∙ sym (append_assoc x (concat xs) (concat ys))

debug_type-Free : (t : ProviderType) → Free b'|' (debug_type t)
unfolding debug_type is_free
debug_type-Free openai_compat = is_free_sound b'|' "OpenaiCompat" refl
debug_type-Free anthropic = is_free_sound b'|' "Anthropic" refl

debug_type-injective : (s t : ProviderType) → debug_type s ≡ debug_type t → s ≡ t
unfolding debug_type
debug_type-injective openai_compat openai_compat h = refl
debug_type-injective openai_compat anthropic h = cc h
debug_type-injective anthropic openai_compat h = cc h
debug_type-injective anthropic anthropic h = refl

colon_inside : (r : RateLimit) → ¬ Free b':' (show_limit (some r))
unfolding show_limit
colon_inside r f =
    not-Free ":" (decimal r.rps) (str_append "" (decimal r.burst))
      (rw (cons-append ":" "" (decimal r.burst)) at f)

-- A limit is read back from its text.
show_limit-injective : (a b : Option RateLimit) → show_limit a ≡ show_limit b → a ≡ b
unfolding show_limit is_free
show_limit-injective none none h = refl
show_limit-injective none (some b) h =
    absurd (colon_inside b (subst (Free b':') h (is_free_sound b':' "none" refl)))
show_limit-injective (some a) none h =
    absurd (colon_inside a (subst (Free b':') (sym h) (is_free_sound b':' "none" refl)))
show_limit-injective (some a) (some b) h =
    let x =
      first_field ":" "" (decimal a.rps) (decimal b.rps) (decimal a.burst) (decimal b.burst)
        (decimal-Free b':' a.rps (omega arith)) (decimal-Free b':' b.rps (omega arith)) h in
    ground (arith, decimal-injective x.0, decimal-injective x.1)

debug_number-injective : (a b : Option ℕ) → debug_number a ≡ debug_number b → a ≡ b
unfolding debug_number
debug_number-injective none none h = refl
debug_number-injective none (some b) h =
    absurd (omega (arith, head_eq (h ∙ cons-append "S" "ome(" (str_append (decimal b) ")"))))
debug_number-injective (some a) none h =
    absurd (omega (arith, head_eq (sym h ∙ cons-append "S" "ome(" (str_append (decimal a) ")"))))
debug_number-injective (some a) (some b) h =
    ap some (decimal-injective (append_cancel_right _ _ ")" (append_cancel_left "Some(" _ _ h)))

-- The text of the breaker settings.
abbrev breaker_text : BreakerConfig → String
breaker_text b = concat (
    decimal b.failure_threshold
    ∷ ":"
    ∷ decimal b.open_ms
    ∷ ":"
    ∷ decimal b.half_open_successes
    ∷ [])

decimal-tail : (n : ℕ) → concat (decimal n ∷ []) ≡ decimal n
unfolding concat
decimal-tail n = append-nil (decimal n)

breaker_text-injective : (a b : BreakerConfig) → breaker_text a ≡ breaker_text b → a ≡ b
unfolding concat
breaker_text-injective a b h =
    let free = λ (n : ℕ). decimal-Free b':' n (omega arith) in
    let x = first_field ":" "" _ _ _ _ (free a.failure_threshold) (free b.failure_threshold) h in
    let y = first_field ":" "" _ _ _ _ (free a.open_ms) (free b.open_ms) x.1 in
    ground (
      arith,
      decimal-injective x.0,
      decimal-injective y.0,
      decimal-injective
          (sym (decimal-tail a.half_open_successes) ∙ y.1 ∙ decimal-tail b.half_open_successes),
    )

-- Neither text holds a bar.
decimal-bar : (n : ℕ) → Free b'|' (decimal n)
decimal-bar n = decimal-Free b'|' n (omega arith)

show_limit-Free : (l : Option RateLimit) → Free b'|' (show_limit l)
unfolding show_limit is_free
show_limit-Free none = is_free_sound b'|' "none" refl
show_limit-Free (some r) =
    Free-append b'|' (decimal r.rps) (str_append ":" (decimal r.burst)) (decimal-bar r.rps)
      (Free-append b'|' ":" (decimal r.burst) (is_free_sound b'|' ":" refl) (decimal-bar r.burst))

debug_number-Free : (n : Option ℕ) → Free b'|' (debug_number n)
unfolding debug_number is_free
debug_number-Free none = is_free_sound b'|' "None" refl
debug_number-Free (some n) =
    Free-append b'|' "Some(" (str_append (decimal n) ")") (is_free_sound b'|' "Some(" refl)
      (Free-append b'|' (decimal n) ")" (decimal-bar n) (is_free_sound b'|' ")" refl))

breaker_text-Free : (b : BreakerConfig) → Free b'|' (breaker_text b)
unfolding concat is_free
breaker_text-Free b =
    let colon = is_free_sound b'|' ":" refl in
    Free-append b'|' _ _ (decimal-bar b.failure_threshold) (
      Free-append b'|' _ _ colon (
        Free-append b'|' _ _ (decimal-bar b.open_ms) (
          Free-append b'|' _ _ colon
            (Free-append b'|' _ _ (decimal-bar b.half_open_successes) tt))))

-- The fields of a signature before its limits.
abbrev front : ModelConfig → String → ℕ → RetryConfig → List String
front m api_key default_max_tokens retry =
    "pt="
    ∷ debug_type m.provider_type
    ∷ "|url="
    ∷ m.base_url
    ∷ "|keyenv="
    ∷ m.api_key_env
    ∷ "|key="
    ∷ api_key
    ∷ "|sid="
    ∷ m.state_key
    ∷ "|uid="
    ∷ m.upstream_id
    ∷ "|dmt="
    ∷ decimal default_max_tokens
    ∷ "|retry="
    ∷ show_bool retry.enabled
    ∷ ":"
    ∷ decimal retry.max_retries
    ∷ ":"
    ∷ decimal retry.backoff_ms
    ∷ []

-- A signature, with its limits behind it one by one.
signature-limits :
    (m : ModelConfig) (api_key : String) (default_max_tokens : ℕ) (retry : RetryConfig)
    (breaker : BreakerConfig)
    → provider_signature m api_key default_max_tokens retry breaker
      ≡ str_append
          (str_append
            (str_append
              (concat (front m api_key default_max_tokens retry))
              (str_append "|rl=" (show_limit m.rate_limit)))
            (str_append "|mc=" (debug_number m.max_concurrency)))
          (str_append "|brk=" (breaker_text breaker))
unfolding provider_signature
signature-limits m api_key default_max_tokens retry breaker =
    concat-append (front m api_key default_max_tokens retry) (
      "|rl="
      ∷ show_limit m.rate_limit
      ∷ "|mc="
      ∷ debug_number m.max_concurrency
      ∷ "|brk="
      ∷ decimal breaker.failure_threshold
      ∷ ":"
      ∷ decimal breaker.open_ms
      ∷ ":"
      ∷ decimal breaker.half_open_successes
      ∷ [])
    ∙ unfold concat in simp append_assoc

-- What two signatures that are equal say of their models and settings.
pub record SameFields (a b : ModelConfig) (old new : BreakerConfig) : Type 0 where
  pub provider_type : a.provider_type ≡ b.provider_type
  pub base_url : a.base_url ≡ b.base_url
  pub api_key_env : a.api_key_env ≡ b.api_key_env
  pub rate_limit : a.rate_limit ≡ b.rate_limit
  pub max_concurrency : a.max_concurrency ≡ b.max_concurrency
  pub breaker : old ≡ new

-- Nothing in the URL and the name of the key's variable looks like the end of a field.
pub record IsBarFree (m : ModelConfig) : Type 0 where
  pub base_url : Free b'|' m.base_url
  pub api_key_env : Free b'|' m.api_key_env

-- Equal signatures stand for one upstream with equal limits and breaker settings, whatever the API keys
-- and upstream ids hold, as long as the URLs and the names of the keys' variables hold no bar.
pub provider_signature-SameFields :
    (a b : ModelConfig) (old_key new_key : String) (m n : ℕ) (r s : RetryConfig)
    (old new : BreakerConfig)
    → IsBarFree a
    → IsBarFree b
    → provider_signature a old_key m r old ≡ provider_signature b new_key n s new
    → SameFields a b old new
unfolding provider_signature concat is_free
provider_signature-SameFields a b old_key new_key m n r s old new f g h =
    let pt =
      first_field "|" "url=" _ _ _ _ (debug_type-Free a.provider_type)
        (debug_type-Free b.provider_type) (append_cancel_left "pt=" _ _ h) in
    let url = first_field "|" "keyenv=" _ _ _ _ f.base_url g.base_url pt.1 in
    let env = first_field "|" "key=" _ _ _ _ f.api_key_env g.api_key_env url.1 in
    let brk =
      last_field "|" "brk=" _ _ _ _ (is_free_sound b'|' "brk=" refl) (breaker_text-Free old)
        (breaker_text-Free new)
        (sym (signature-limits a old_key m r old) ∙ h ∙ signature-limits b new_key n s new) in
    let mc =
      last_field "|" "mc=" _ _ _ _ (is_free_sound b'|' "mc=" refl)
        (debug_number-Free a.max_concurrency) (debug_number-Free b.max_concurrency) brk.0 in
    let rl =
      last_field "|" "rl=" _ _ _ _ (is_free_sound b'|' "rl=" refl) (show_limit-Free a.rate_limit)
        (show_limit-Free b.rate_limit) mc.0 in
    record {
      provider_type = debug_type-injective a.provider_type b.provider_type pt.0;
      base_url = url.0;
      api_key_env = env.0;
      rate_limit = show_limit-injective a.rate_limit b.rate_limit rl.1;
      max_concurrency = debug_number-injective a.max_concurrency b.max_concurrency mc.1;
      breaker = breaker_text-injective old new brk.1;
    }
