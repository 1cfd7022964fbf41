-- ===== src/Auth/Sha256.antt =====
-- crates/moaray/src/auth.rs: the `sha256` module, over words of 32 bits.
use Prim.Native.Nat.{bit_and, bit_xor}
use moaray.Base.{
  ℕ, zero, suc, ◌+◌, ◌-◌, ◌*◌, ◌/◌, ◌%◌, ◌^◌, ◌≡◌, refl, String, str_append, ◌==◌, if◌then◌else◌,
  List, [], ◌∷◌, ◌++◌, length,
}

abbrev wrapping_add32 : ℕ → ℕ → ℕ
wrapping_add32 a b = (a + b) % 2 ^ 32

abbrev rotate_right : ℕ → ℕ → ℕ
rotate_right x n = x / 2 ^ n + x % 2 ^ n * 2 ^ (32 - n)

abbrev complement : ℕ → ℕ
complement x = 2 ^ 32 - 1 - x

abbrev xor3 : ℕ → ℕ → ℕ → ℕ
xor3 a b c = bit_xor (bit_xor a b) c

-- The eight words `h` and, in a round, `v`.
pub record Words : Type 0 where
  pub w0 : ℕ
  pub w1 : ℕ
  pub w2 : ℕ
  pub w3 : ℕ
  pub w4 : ℕ
  pub w5 : ℕ
  pub w6 : ℕ
  pub w7 : ℕ

abbrev pub initial_words : Words
initial_words = record {
  w0 = 0x6a09e667;
  w1 = 0xbb67ae85;
  w2 = 0x3c6ef372;
  w3 = 0xa54ff53a;
  w4 = 0x510e527f;
  w5 = 0x9b05688c;
  w6 = 0x1f83d9ab;
  w7 = 0x5be0cd19;
}

abbrev pub round_constants : List ℕ
round_constants =
    0x428a2f98 ∷ 0x71374491 ∷ 0xb5c0fbcf ∷ 0xe9b5dba5 ∷ 0x3956c25b ∷ 0x59f111f1 ∷ 0x923f82a4
    ∷ 0xab1c5ed5 ∷ 0xd807aa98 ∷ 0x12835b01 ∷ 0x243185be ∷ 0x550c7dc3 ∷ 0x72be5d74 ∷ 0x80deb1fe
    ∷ 0x9bdc06a7 ∷ 0xc19bf174 ∷ 0xe49b69c1 ∷ 0xefbe4786 ∷ 0x0fc19dc6 ∷ 0x240ca1cc ∷ 0x2de92c6f
    ∷ 0x4a7484aa ∷ 0x5cb0a9dc ∷ 0x76f988da ∷ 0x983e5152 ∷ 0xa831c66d ∷ 0xb00327c8 ∷ 0xbf597fc7
    ∷ 0xc6e00bf3 ∷ 0xd5a79147 ∷ 0x06ca6351 ∷ 0x14292967 ∷ 0x27b70a85 ∷ 0x2e1b2138 ∷ 0x4d2c6dfc
    ∷ 0x53380d13 ∷ 0x650a7354 ∷ 0x766a0abb ∷ 0x81c2c92e ∷ 0x92722c85 ∷ 0xa2bfe8a1 ∷ 0xa81a664b
    ∷ 0xc24b8b70 ∷ 0xc76c51a3 ∷ 0xd192e819 ∷ 0xd6990624 ∷ 0xf40e3585 ∷ 0x106aa070 ∷ 0x19a4c116
    ∷ 0x1e376c08 ∷ 0x2748774c ∷ 0x34b0bcb5 ∷ 0x391c0cb3 ∷ 0x4ed8aa4a ∷ 0x5b9cca4f ∷ 0x682e6ff3
    ∷ 0x748f82ee ∷ 0x78a5636f ∷ 0x84c87814 ∷ 0x8cc70208 ∷ 0x90befffa ∷ 0xa4506ceb ∷ 0xbef9a3f7
    ∷ 0xc67178f2 ∷ []

-- `w[i - n]` of a schedule that is kept with its last word first.
abbrev back : ℕ → List ℕ → ℕ
back n [] = 0
back zero (x ∷ xs) = x
back (suc zero) (x ∷ xs) = x
back (suc (suc n)) (x ∷ xs) = back (suc n) xs

abbrev next_word : List ℕ → ℕ
next_word w =
    let s0 = xor3 (rotate_right (back 15 w) 7) (rotate_right (back 15 w) 18) (back 15 w / 2 ^ 3) in
    let s1 = xor3 (rotate_right (back 2 w) 17) (rotate_right (back 2 w) 19) (back 2 w / 2 ^ 10) in
    wrapping_add32 (wrapping_add32 (wrapping_add32 (back 16 w) s0) (back 7 w)) s1

unfoldable pub extend : ℕ → List ℕ → List ℕ
extend zero w = w
extend (suc n) w = extend n (next_word w ∷ w)

unfoldable pub round : Words → ℕ → ℕ → Words
round v k w =
    let s1 = xor3 (rotate_right v.w4 6) (rotate_right v.w4 11) (rotate_right v.w4 25) in
    let ch = bit_xor (bit_and v.w4 v.w5) (bit_and (complement v.w4) v.w6) in
    let t1 = wrapping_add32 (wrapping_add32 (wrapping_add32 (wrapping_add32 v.w7 s1) ch) k) w in
    let s0 = xor3 (rotate_right v.w0 2) (rotate_right v.w0 13) (rotate_right v.w0 22) in
    let maj = xor3 (bit_and v.w0 v.w1) (bit_and v.w0 v.w2) (bit_and v.w1 v.w2) in
    record {
      w0 = wrapping_add32 t1 (wrapping_add32 s0 maj);
      w1 = v.w0;
      w2 = v.w1;
      w3 = v.w2;
      w4 = wrapping_add32 v.w3 t1;
      w5 = v.w4;
      w6 = v.w5;
      w7 = v.w6;
    }

-- The rounds of a chunk: constant and word by word.
unfoldable pub rounds : Words → List ℕ → List ℕ → Words
unfolding round
rounds v [] ws = v
rounds v ks [] = v
rounds v (k ∷ ks) (w ∷ ws) = rounds (round v k w) ks ws

abbrev add_words : Words → Words → Words
add_words h v = record {
  w0 = wrapping_add32 h.w0 v.w0;
  w1 = wrapping_add32 h.w1 v.w1;
  w2 = wrapping_add32 h.w2 v.w2;
  w3 = wrapping_add32 h.w3 v.w3;
  w4 = wrapping_add32 h.w4 v.w4;
  w5 = wrapping_add32 h.w5 v.w5;
  w6 = wrapping_add32 h.w6 v.w6;
  w7 = wrapping_add32 h.w7 v.w7;
}

abbrev be_words : List ℕ → List ℕ
be_words (a ∷ b ∷ c ∷ d ∷ bs) = (a * 2 ^ 24 + b * 2 ^ 16 + c * 2 ^ 8 + d) ∷ be_words bs
be_words _ = []

abbrev reverse_onto : List ℕ → List ℕ → List ℕ
reverse_onto acc [] = acc
reverse_onto acc (x ∷ xs) = reverse_onto (x ∷ acc) xs

unfoldable pub compress : Words → List ℕ → Words
unfolding extend rounds
compress h words =
    add_words h (rounds h round_constants (reverse_onto [] (extend 48 (reverse_onto [] words))))

-- The zeros up to a length of 56 modulo 64; 64 rounds are enough.
unfoldable pub zeros : ℕ → ℕ → List ℕ
zeros zero len = []
zeros (suc fuel) len = let more = zeros fuel (len + 1) in if len % 64 == 56 then [] else 0 ∷ more

abbrev be_bytes : ℕ → ℕ → List ℕ
be_bytes zero n = []
be_bytes (suc k) n = n / 256 ^ k % 256 ∷ be_bytes k n

unfoldable pub padded : List ℕ → List ℕ
unfolding zeros
padded data_ =
    data_ ++ (0x80 ∷ zeros 64 (length data_ + 1)) ++ be_bytes 8 (length data_ * 8 % 2 ^ 64)

abbrev chunk_words : ℕ → List ℕ → List ℕ × List ℕ
chunk_words zero ws = ([], ws)
chunk_words (suc n) [] = ([], [])
chunk_words (suc n) (w ∷ ws) = let (front, rest) = chunk_words n ws in (w ∷ front, rest)

-- `chunks(64)`, by the number of words at most.
unfoldable pub compress_all : ℕ → Words → List ℕ → Words
unfolding compress
compress_all zero h ws = h
compress_all (suc fuel) h [] = h
compress_all (suc fuel) h (w ∷ ws) =
    let (front, rest) = chunk_words 16 (w ∷ ws) in compress_all fuel (compress h front) rest

hex_digit : ℕ → String
hex_digit d =
    if d == 0
    then "0"
    else if d == 1
    then "1"
    else if d == 2
    then "2"
    else if d == 3
    then "3"
    else if d == 4
    then "4"
    else if d == 5
    then "5"
    else if d == 6
    then "6"
    else if d == 7
    then "7"
    else if d == 8
    then "8"
    else if d == 9
    then "9"
    else if d == 10
    then "a"
    else if d == 11
    then "b"
    else if d == 12
    then "c"
    else if d == 13
    then "d"
    else if d == 14
    then "e"
    else "f"

-- The last digits of a number, first digit first.
abbrev hex_digits : ℕ → ℕ → String
hex_digits zero n = ""
hex_digits (suc k) n = str_append (hex_digits k (n / 16)) (hex_digit (n % 16))

abbrev hex_word : ℕ → String
hex_word n = hex_digits 8 n

unfoldable pub digest : List ℕ → String
unfolding padded compress_all hex_digit
digest data_ =
    let words = be_words (padded data_) in
    let h = compress_all (length words) initial_words words in
    str_append (hex_word h.w0) (
      str_append (hex_word h.w1) (
        str_append (hex_word h.w2) (
          str_append (hex_word h.w3) (
            str_append (hex_word h.w4)
              (str_append (hex_word h.w5) (str_append (hex_word h.w6) (hex_word h.w7)))))))

digest_test :
    digest (97 ∷ 98 ∷ 99 ∷ []) ≡ "ba7816bf8f01cfea414140de5dae2223b00361a396177a9cb410ff61f20015ad"
unfolding digest
digest_test = refl
