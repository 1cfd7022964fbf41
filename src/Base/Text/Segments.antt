-- ===== src/Base/Text/Segments.antt =====
-- Texts that are put together of segments with separators between them, and taken apart again.
use Prim.Native.Nat.{ℕ}
use Prim.Native.Char.{Char, code}
use Prim.Native.String.{String, ◌++◌}
use text.Mathlib.TextLemmas.{nil-append, cons-append, append_cancel_left}
use mathlib.Core.Path.{◌≡◌, refl, sym, ap, ap₂, subst, ◌∙◌}
use mathlib.Core.Logic.{◌≢◌}
use mathlib.Core.Bool.{Bool, true, not, ◌&&◌}
use native.Mathlib.Omega.{arith}
use package.moaray.Base.Tests.{◌==◌, ==_iff}

-- No character of the text has the code `c`.
abbrev pub Free : ℕ → String → Type 0
Free c String.[] = Unit
Free c (String.◌∷◌ d s) = (code d ≢ c) × Free c s

pub Free-append : (c : ℕ) (s t : String) → Free c s → Free c t → Free c (s ++ t)
Free-append c String.[] t f g = rw nil-append g
Free-append c (String.◌∷◌ d s) t f g = rw (cons-append d s t) (f.0, Free-append c s t f.1 g)

pub head_eq : {c d : Char} {s t : String} → String.◌∷◌ c s ≡ String.◌∷◌ d t → code c ≡ code d
head_eq h = cc h

tail_eq : {c d : Char} {s t : String} → String.◌∷◌ c s ≡ String.◌∷◌ d t → s ≡ t
tail_eq h = cc h

cons_eq : {c d : Char} {s t : String} → String.◌∷◌ c s ≡ String.◌∷◌ d t → c ≡ d
cons_eq h = cc h

-- A text that holds the separator is not free of it.
pub not-Free : (c : Char) (s u : String) → ¬ Free (code c) (s ++ String.◌∷◌ c u)
not-Free c String.[] u f = (rw nil-append at f).0 refl
not-Free c (String.◌∷◌ d s) u f = not-Free c s u (rw (cons-append d s (String.◌∷◌ c u)) at f).1

-- Texts that agree up to a separator that neither holds before it agree before and behind it.
pub first_segment :
    (c : Char) (a b r s : String)
    → Free (code c) a
    → Free (code c) b
    → a ++ String.◌∷◌ c r ≡ b ++ String.◌∷◌ c s
    → (a ≡ b) × (r ≡ s)
first_segment c String.[] String.[] r s f g h =
    (refl, tail_eq (sym (nil-append _) ∙ h ∙ nil-append _))
first_segment c String.[] (String.◌∷◌ d b) r s f g h =
    absurd (g.0 (sym (head_eq (sym (nil-append _) ∙ h ∙ cons-append d b _))))
first_segment c (String.◌∷◌ d a) String.[] r s f g h =
    absurd (f.0 (head_eq (sym (cons-append d a _) ∙ h ∙ nil-append _)))
first_segment c (String.◌∷◌ d a) (String.◌∷◌ e b) r s f g h =
    let split = sym (cons-append d a _) ∙ h ∙ cons-append e b _ in
    let rest = first_segment c a b r s f.1 g.1 (tail_eq split) in
    (ap₂ String.◌∷◌ (cons_eq split) rest.0, rest.1)

-- Texts that agree behind a separator that neither holds behind it agree behind and before it.
pub last_segment :
    (c : Char) (r s a b : String)
    → Free (code c) a
    → Free (code c) b
    → r ++ String.◌∷◌ c a ≡ s ++ String.◌∷◌ c b
    → (r ≡ s) × (a ≡ b)
last_segment c String.[] String.[] a b f g h =
    (refl, tail_eq (sym (nil-append _) ∙ h ∙ nil-append _))
last_segment c String.[] (String.◌∷◌ d s) a b f g h = absurd (
    not-Free c s b (subst (Free (code c)) (tail_eq (sym (nil-append _) ∙ h ∙ cons-append d s _)) f))
last_segment c (String.◌∷◌ d r) String.[] a b f g h = absurd (
    not-Free c r a
      (subst (Free (code c)) (sym (tail_eq (sym (cons-append d r _) ∙ h ∙ nil-append _))) g))
last_segment c (String.◌∷◌ d r) (String.◌∷◌ e s) a b f g h =
    let split = sym (cons-append d r _) ∙ h ∙ cons-append e s _ in
    let rest = last_segment c r s a b f g (tail_eq split) in
    (ap₂ String.◌∷◌ (cons_eq split) rest.0, rest.1)

unfoldable pub is_free : ℕ → String → Bool
is_free c String.[] = true
is_free c (String.◌∷◌ d s) = not (code d == c) && is_free c s

-- For a text that is known.
pub is_free_sound : (c : ℕ) (s : String) → is_free c s ≡ true → Free c s
unfolding is_free
is_free_sound c String.[] h = tt
is_free_sound c (String.◌∷◌ d s) h =
    (λ e. ground (arith, h, e, ==_iff (code d) c), is_free_sound c s (ground (arith, h)))

-- The same for a separator that is a text, whose first character does not stand in the segment.
module _ (c : Char) (u : String) where
  pub first_field :
      (a b r s : String)
      → Free (code c) a
      → Free (code c) b
      → a ++ (String.◌∷◌ c u ++ r) ≡ b ++ (String.◌∷◌ c u ++ s)
      → (a ≡ b) × (r ≡ s)
  first_field a b r s f g h =
      let x =
        first_segment c a b (u ++ r) (u ++ s) f g
          (ap (λ t. a ++ t) (sym (cons-append c u r)) ∙ h ∙ ap (λ t. b ++ t) (cons-append c u s)) in
      (x.0, append_cancel_left u r s x.1)

  pub last_field :
      (r s a b : String)
      → Free (code c) u
      → Free (code c) a
      → Free (code c) b
      → r ++ (String.◌∷◌ c u ++ a) ≡ s ++ (String.◌∷◌ c u ++ b)
      → (r ≡ s) × (a ≡ b)
  last_field r s a b v f g h =
      let x =
        last_segment c r s (u ++ a) (u ++ b) (Free-append (code c) u a v f)
          (Free-append (code c) u b v g)
          (ap (λ t. r ++ t) (sym (cons-append c u a)) ∙ h ∙ ap (λ t. s ++ t) (cons-append c u b)) in
      (x.0, append_cancel_left u a b x.1)
