-- ===== src/Base/Text.antt =====
-- What the source uses of `str`: `strip_prefix`, `is_empty`, and the decimal `Display` of integers.
pub mod Segments
pub mod Digits
use Prim.Native.Nat.{ℕ, zero, suc, ◌/◌, ◌%◌}
use Prim.Native.Char.{code}
use Prim.Native.String.{String, ◌++◌}
use text.Mathlib.TextEquality.{Char-path}
use text.Mathlib.TextLemmas.{nil-append, cons-append}
use mathlib.Core.Logic.{inl, inr}
use mathlib.Core.Path.{◌≡◌, refl, sym, ap₂}
use mathlib.Core.Bool.{Bool, true, false, ◌&&◌}
use mathlib.Core.Option.{Option, none, some}
use native.Mathlib.Omega.{arith}
use package.moaray.Base.Tests.{if◌then◌else◌, ltb, ◌==◌, ==_iff, Bool-cases}

abbrev pub is_empty : String → Bool
is_empty String.[] = true
is_empty (String.◌∷◌ c s) = false

unfoldable pub strip_prefix : String → String → Option String
strip_prefix String.[] s = some s
strip_prefix (String.◌∷◌ c p) String.[] = none
strip_prefix (String.◌∷◌ c p) (String.◌∷◌ d s) = if code c == code d then strip_prefix p s else none

pub strip_prefix_sound : (p s r : String) → strip_prefix p s ≡ some r → s ≡ p ++ r
unfolding strip_prefix
strip_prefix_sound String.[] s r h = rw nil-append (cc)
strip_prefix_sound (String.◌∷◌ c p) String.[] r h = cc
strip_prefix_sound (String.◌∷◌ c p) (String.◌∷◌ d s) r h = elim (Bool-cases (code c == code d)) [
  | inl e ↦ rw (cons-append c p r) (
      ap₂ String.◌∷◌ (sym (Char-path c d ((==_iff _ _).0 e)))
        (strip_prefix_sound p s r (rw e at h)))
  | inr e ↦ ground arith
]

pub strip_prefix-append : (p r : String) → strip_prefix p (p ++ r) ≡ some r
unfolding strip_prefix
strip_prefix-append String.[] r = rw nil-append
strip_prefix-append (String.◌∷◌ c p) r =
    rw (cons-append c p r, (==_iff (code c) (code c)).1 refl) (strip_prefix-append p r)

pub digit : ℕ → String
digit d =
    if d == 0
    then "0"
    else if d == 1
    then "1"
    else if d == 2
    then "2"
    else if d == 3
    then "3"
    else if d == 4
    then "4"
    else if d == 5
    then "5"
    else if d == 6
    then "6"
    else if d == 7
    then "7"
    else if d == 8
    then "8"
    else "9"

-- One digit a round: a number has fewer digits than its successor counts.
pub decimal_within : ℕ → ℕ → String
decimal_within zero n = ""
decimal_within (suc f) n =
    let more = decimal_within f (n / 10) ++ digit (n % 10) in if ltb n 10 then digit n else more

unfoldable pub decimal : ℕ → String
unfolding decimal_within digit
decimal n = decimal_within (suc n) n

decimal_test : decimal 1970 ≡ "1970"
unfolding decimal
decimal_test = refl

-- `trim_end_matches('/')`.
unfoldable pub trim_end_slashes : String → String
trim_end_slashes String.[] = ""
trim_end_slashes (String.◌∷◌ c s) =
    let rest = trim_end_slashes s in
    if is_empty rest && (code c == b'/') then "" else String.◌∷◌ c rest
