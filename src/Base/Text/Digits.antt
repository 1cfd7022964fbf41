-- ===== src/Base/Text/Digits.antt =====
-- The decimal form of a number, read back.
use Prim.Native.Nat.{ℕ, zero, suc, ◌+◌, ◌-◌, ◌*◌, ◌/◌, ◌%◌, ◌<◌, ◌≤◌}
use Prim.Native.Char.{code}
use Prim.Native.String.{String, ◌++◌}
use text.Mathlib.TextLemmas.{nil-append, cons-append}
use mathlib.Core.Path.{◌≡◌, refl, sym, ap, ◌∙◌}
use mathlib.Core.Logic.{inl, inr}
use native.Mathlib.Omega.{arith}
use package.moaray.Base.Tests.{ltb, ltb→lt, Bool-cases}
use package.moaray.Base.Text.{digit, decimal_within, decimal}
use package.moaray.Base.Text.Segments.{Free}

value_from : ℕ → String → ℕ
value_from acc String.[] = acc
value_from acc (String.◌∷◌ c s) = value_from (acc * 10 + (code c - 48)) s

value_from-append :
    (acc : ℕ) (s t : String) → value_from acc (s ++ t) ≡ value_from (value_from acc s) t
unfolding value_from
value_from-append acc String.[] t = ap (value_from acc) (nil-append t)
value_from-append acc (String.◌∷◌ c s) t =
    ap (value_from acc) (cons-append c s t) ∙ value_from-append (acc * 10 + (code c - 48)) s t

-- The text is made of characters up to the digits.
abbrev Plain : String → Type 0
Plain String.[] = Unit
Plain (String.◌∷◌ c s) = (code c < 58) × Plain s

Plain-append : (s t : String) → Plain s → Plain t → Plain (s ++ t)
Plain-append String.[] t f g = rw nil-append g
Plain-append (String.◌∷◌ c s) t f g = rw (cons-append c s t) (f.0, Plain-append s t f.1 g)

Plain-Free : (c : ℕ) (s : String) → 58 ≤ c → Plain s → Free c s
Plain-Free c String.[] h p = tt
Plain-Free c (String.◌∷◌ d s) h p = (λ e. omega (arith, h, p.0, e), Plain-Free c s h p.1)

-- A digit is one character, and adds its value behind the digits before it.
digit_lem :
    (d : ℕ) → d < 10 → Plain (digit d) × ((acc : ℕ) → value_from acc (digit d) ≡ acc * 10 + d)
unfolding value_from digit
digit_lem zero h = ((omega arith, tt), λ acc. refl)
digit_lem (suc zero) h = ((omega arith, tt), λ acc. refl)
digit_lem (suc (suc zero)) h = ((omega arith, tt), λ acc. refl)
digit_lem (suc (suc (suc zero))) h = ((omega arith, tt), λ acc. refl)
digit_lem (suc (suc (suc (suc zero)))) h = ((omega arith, tt), λ acc. refl)
digit_lem (suc (suc (suc (suc (suc zero))))) h = ((omega arith, tt), λ acc. refl)
digit_lem (suc (suc (suc (suc (suc (suc zero)))))) h = ((omega arith, tt), λ acc. refl)
digit_lem (suc (suc (suc (suc (suc (suc (suc zero))))))) h = ((omega arith, tt), λ acc. refl)
digit_lem (suc (suc (suc (suc (suc (suc (suc (suc zero)))))))) h = ((omega arith, tt), λ acc. refl)
digit_lem (suc (suc (suc (suc (suc (suc (suc (suc (suc zero))))))))) h =
    ((omega arith, tt), λ acc. refl)
digit_lem (suc (suc (suc (suc (suc (suc (suc (suc (suc (suc n)))))))))) h =
    absurd (omega (arith, h))

decimal_within-Plain : (f n : ℕ) → Plain (decimal_within f n)
unfolding decimal_within
decimal_within-Plain zero n = tt
decimal_within-Plain (suc f) n = elim (Bool-cases (ltb n 10)) [
  | inl small ↦ rw small (digit_lem n (ltb→lt n 10 small)).0
  | inr large ↦ rw large (
      Plain-append (decimal_within f (n / 10)) (digit (n % 10)) (decimal_within-Plain f (n / 10))
        (digit_lem (n % 10) (omega arith)).0)
]

-- The decimal form of a number holds neither a colon nor any character behind it.
pub decimal-Free : (c n : ℕ) → 58 ≤ c → Free c (decimal n)
unfolding decimal
decimal-Free c n h = Plain-Free c (decimal_within (suc n) n) h (decimal_within-Plain (suc n) n)

value_from-decimal_within : (f n : ℕ) → n < f → value_from 0 (decimal_within f n) ≡ n
unfolding decimal_within
value_from-decimal_within zero n h = elim h [ ]
value_from-decimal_within (suc f) n h = elim (Bool-cases (ltb n 10)) [
  | inl small ↦ rw small ((digit_lem n (ltb→lt n 10 small)).1 0 ∙ omega arith)
  | inr large ↦ rw large (
      value_from-append 0 (decimal_within f (n / 10)) (digit (n % 10))
      ∙ ap (λ a. value_from a (digit (n % 10)))
          (value_from-decimal_within f (n / 10) (ground (arith, large, h)))
      ∙ (digit_lem (n % 10) (omega arith)).1 (n / 10)
      ∙ omega arith)
]

-- Different numbers have different decimal forms.
pub decimal-injective : {m n : ℕ} → decimal m ≡ decimal n → m ≡ n
unfolding decimal
decimal-injective {m} {n} h =
    sym (value_from-decimal_within (suc m) m (omega arith))
    ∙ ap (value_from 0) h
    ∙ value_from-decimal_within (suc n) n (omega arith)
