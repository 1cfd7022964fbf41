-- ===== src/Auth/Compare.antt =====
-- crates/moaray/src/auth.rs: `ct_eq`, the comparison that looks at every byte.
use Prim.Native.Nat.{
  zero, suc, ◌/◌, ◌%◌, bit_or, bit_xor, digits, differ, bit_or-bitwise, bit_xor-bitwise,
}
use moaray.Base.{
  ℕ, ◌≤◌, ◌≡◌, refl, sym, ◌∙◌, ◌↔◌, max, Bool, true, false, not, ◌==◌, ==_iff, if◌then◌else◌, List,
  [], ◌∷◌, length, arith, Bool-cases, inl, inr,
}

unfoldable pub byte_diff : ℕ → List ℕ → List ℕ → ℕ
byte_diff diff [] ys = diff
byte_diff diff (x ∷ xs) [] = diff
byte_diff diff (x ∷ xs) (y ∷ ys) = byte_diff (bit_or diff (bit_xor x y)) xs ys

unfoldable pub ct_eq : List ℕ → List ℕ → Bool
unfolding byte_diff
ct_eq a b = let same = byte_diff 0 a b == 0 in if not (length a == length b) then false else same

or_zero : (n a b : ℕ) → a ≤ n → digits (λ y. y) max n a b ≡ 0 → (a ≡ 0) × (b ≡ 0)
or_zero zero zero b h e = (refl, e)
or_zero zero (suc a) b h e = absurd (omega arith)
or_zero (suc n) zero b h e = (refl, e)
or_zero (suc n) (suc a) b h e =
    let halves = or_zero n (suc a / 2) (b / 2) (omega arith) (omega (arith, e)) in
    absurd (omega (arith, halves.0, e))

bit_or-zero : (a b : ℕ) → bit_or a b ≡ 0 → (a ≡ 0) × (b ≡ 0)
bit_or-zero a b e = or_zero a a b (omega arith) (sym (bit_or-bitwise a b) ∙ e)

differ-zero : (x y : ℕ) → differ x y ≡ 0 → x ≡ y
differ-zero zero y e = sym e
differ-zero (suc x) zero e = e
differ-zero (suc x) (suc y) e = omega (arith, differ-zero x y e)

differ_self : (x : ℕ) → differ x x ≡ 0
differ_self zero = refl
differ_self (suc x) = differ_self x

xor_zero : (n a b : ℕ) → a ≤ n → digits (λ y. y) differ n a b ≡ 0 → a ≡ b
xor_zero zero zero b h e = sym e
xor_zero zero (suc a) b h e = absurd (omega arith)
xor_zero (suc n) zero b h e = sym e
xor_zero (suc n) (suc a) b h e = omega (
  arith,
  xor_zero n (suc a / 2) (b / 2) (omega arith) (omega (arith, e)),
  differ-zero (suc a % 2) (b % 2) (omega (arith, e)),
)

bit_xor-zero : (a b : ℕ) → bit_xor a b ≡ 0 → a ≡ b
bit_xor-zero a b e = xor_zero a a b (omega arith) (sym (bit_xor-bitwise a b) ∙ e)

xor_self : (n a : ℕ) → a ≤ n → digits (λ y. y) differ n a a ≡ 0
xor_self zero zero h = refl
xor_self zero (suc a) h = absurd (omega arith)
xor_self (suc n) zero h = refl
xor_self (suc n) (suc a) h =
    omega (arith, xor_self n (suc a / 2) (omega arith), differ_self (suc a % 2))

bit_xor_self : (a : ℕ) → bit_xor a a ≡ 0
bit_xor_self a = bit_xor-bitwise a a ∙ xor_self a a (omega arith)

byte_diff_sound :
    (diff : ℕ) (xs ys : List ℕ)
    → length xs ≡ length ys
    → byte_diff diff xs ys ≡ 0
    → (diff ≡ 0) × (xs ≡ ys)
unfolding byte_diff
byte_diff_sound diff [] [] l e = (e, refl)
byte_diff_sound diff [] (y ∷ ys) l e = absurd (omega (arith, l))
byte_diff_sound diff (x ∷ xs) [] l e = absurd (omega (arith, l))
byte_diff_sound diff (x ∷ xs) (y ∷ ys) l e =
    let rest = byte_diff_sound (bit_or diff (bit_xor x y)) xs ys (omega (arith, l)) e in
    let both = bit_or-zero diff (bit_xor x y) rest.0 in
    (both.0, cc (bit_xor-zero x y both.1, rest.1))

byte_diff_self : (xs : List ℕ) → byte_diff 0 xs xs ≡ 0
unfolding byte_diff
byte_diff_self [] = refl
byte_diff_self (x ∷ xs) = rw (bit_xor_self x) (byte_diff_self xs)

-- The comparison that never stops early says yes exactly to equal byte strings.
pub ct_eq_iff : (a b : List ℕ) → (ct_eq a b ≡ true) ↔ (a ≡ b)
unfolding ct_eq
ct_eq_iff a b = (sound, complete)
  where
    sound : ct_eq a b ≡ true → a ≡ b
    sound h = elim (Bool-cases (length a == length b)) [
      | inr other ↦ ground arith
      | inl same ↦ (byte_diff_sound 0 a b ((==_iff _ _).0 same) ((==_iff _ _).0 (ground arith))).1
    ]

    complete : a ≡ b → ct_eq a b ≡ true
    complete e = ground (arith, byte_diff_self a)
