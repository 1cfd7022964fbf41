-- ===== src/Moa/Usage.antt =====
-- crates/moaray-moa/src/orchestrator.rs: what is read out of responses and their usage objects, and the
-- sum of usage objects.
pub mod Totals
use moaray.Base.{String, Option, none, some, List, [], ◌∷◌, unwrap_or}
use moaray.Base.Int.{ℤ, pos, wrapping_add}
use moaray.Base.Dict
use moaray.Base.Dict.{Dict}
use moaray.Core.Json.{Json}
use moaray.Core.Types.{ChatResponse}
use moaray.Moa.Strategy.{value_to_text}

infixl 5 ◌>>=?◌
abbrev pub ◌>>=?◌ : {A B : Type 0} → Option A → (A → Option B) → Option B
none >>=? f = none
some a >>=? f = f a

module _ (J : Json) where
  first_choice : List J.Value → Option J.Value
  first_choice [] = none
  first_choice (c ∷ cs) = some c

  unfoldable pub extract_text : ChatResponse J → String
  unfolding first_choice
  extract_text resp =
      elim (first_choice resp.choices
        >>=? (λ c. J.field c "message")
        >>=? (λ m. J.field m "content")) [ none ↦ "" | some v ↦ value_to_text J v ]

  -- One field of a usage object added to the totals.
  unfoldable add_field : Dict J.Value → String → Option ℤ → Dict J.Value
  add_field acc k none = acc
  add_field acc k (some n) =
      let cur = unwrap_or (Dict.get acc k >>=? J.as_i64) (pos 0) in
      Dict.insert acc k (J.from_i64 (wrapping_add cur n))

  unfoldable pub add_fields : Dict J.Value → Dict J.Value → Dict J.Value
  unfolding add_field
  add_fields acc [] = acc
  add_fields acc ((k, v) ∷ obj) = add_fields (add_field acc k (J.as_i64 v)) obj

  unfoldable pub add_usages : Dict J.Value → List J.Value → Dict J.Value
  add_usages acc [] = acc
  add_usages acc (u ∷ us) = add_usages (add_fields acc (unwrap_or (J.as_object u) [])) us

  unfoldable pub sum_usage : List J.Value → J.Value
  sum_usage usages = J.object (add_usages [] usages)

  unfoldable pub extract_tokens : Option J.Value → Option ℤ × Option ℤ
  extract_tokens none = (none, none)
  extract_tokens (some u) =
      (J.field u "prompt_tokens" >>=? J.as_i64, J.field u "completion_tokens" >>=? J.as_i64)
