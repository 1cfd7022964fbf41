-- ===== src/Base/Result.antt =====
-- `std::result::Result`, with `?` as bind.
use mathlib.Core.Path.{◌≡◌, refl}
use mathlib.Core.Logic.{◌⊎◌, inl, inr}
use mathlib.Core.Bool.{Bool, true, false}
use mathlib.Core.Option.{Option, none, some}

pub data Result (A E : Type 0) : Type 0 where
  ok : A → Result A E
  err : E → Result A E

infixl 5 ◌>>=◌
abbrev pub ◌>>=◌ : {A B E : Type 0} → Result A E → (A → Result B E) → Result B E
ok a >>= f = f a
err e >>= f = err e

infixl 5 ◌>>◌
abbrev pub ◌>>◌ : {B E : Type 0} → Result (Unit {0}) E → Result B E → Result B E
m >> k = m >>= λ _. k

-- An early `return Err(e)` under a test.
abbrev pub fail_if : {E : Type 0} → Bool → E → Result (Unit {0}) E
fail_if true e = err e
fail_if false e = ok tt

-- `ok_or`.
abbrev pub ok_or : {A E : Type 0} → Option A → E → Result A E
ok_or none e = err e
ok_or (some a) e = ok a

-- What a successful `?` went through: the value of the first step, and the second step on it.
pub record Passed {A B E : Type 0} (m : Result A E) (f : A → Result B E) (b : B) : Type 0 where
  pub value : A
  pub first : m ≡ ok value
  pub second : f value ≡ ok b

pub passed :
    {A B E : Type 0} {b : B} (f : A → Result B E) (m : Result A E) → (m >>= f) ≡ ok b → Passed m f b
passed f (err e) h = cc
passed f (ok a) h = record { value = a; first = refl; second = h }

pub not-failed : {E : Type 0} (b : Bool) (e : E) → fail_if b e ≡ ok tt → b ≡ false
not-failed false e h = refl
not-failed true e h = cc

pub ok-injective : {A E : Type 0} {a b : A} → ◌≡◌ {A = Result A E} (ok a) (ok b) → a ≡ b
ok-injective h = cc

pub Result-cases :
    {A E : Type 0} (r : Result A E) → ((a : A) × (r ≡ ok a)) ⊎ ((e : E) × (r ≡ err e))
Result-cases (ok a) = inl (a, refl)
Result-cases (err e) = inr (e, refl)
