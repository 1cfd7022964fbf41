-- ===== src/Moa/Sanitize.antt =====
-- crates/moaray-moa/src/strategy.rs: `sanitize_candidate`, which keeps a candidate's text from forging
-- the delimiters.
use Prim.Native.Char.{Char, code}
use moaray.Base.{
  ℕ, String, ◌≡◌, ◌≢◌, zero, suc, ◌+◌, ◌≤◌, leb, refl, Bool, false, ◌&&◌, ◌||◌, arith, ◌==◌,
  if◌then◌else◌,
}

-- `str::replace` of three `o` by three `n`: left to right, without overlap.
unfoldable pub replace_run : Char → Char → String → String
replace_run o n String.[] = String.[]
replace_run o n (String.◌∷◌ a String.[]) = String.◌∷◌ a String.[]
replace_run o n (String.◌∷◌ a (String.◌∷◌ b String.[])) = String.◌∷◌ a (String.◌∷◌ b String.[])
replace_run o n (String.◌∷◌ a (String.◌∷◌ b (String.◌∷◌ c s))) =
    let past = String.◌∷◌ n (String.◌∷◌ n (String.◌∷◌ n (replace_run o n s))) in
    let next = String.◌∷◌ a (replace_run o n (String.◌∷◌ b (String.◌∷◌ c s))) in
    if (code a == code o) && (code b == code o) && (code c == code o) then past else next

unfoldable pub sanitize_candidate : String → String
sanitize_candidate c = replace_run ">" "›" (replace_run "<" "‹" c)

-- Whether the text, with `k` of `o` right before it, comes to three `o` in a row.
unfoldable pub run_after : Char → ℕ → String → Bool
run_after o k String.[] = false
run_after o k (String.◌∷◌ c s) =
    let longer = leb 2 k || run_after o (k + 1) s in
    let over = run_after o 0 s in if code c == code o then longer else over

-- Whether three `o` in a row stand somewhere in the text.
unfoldable pub has_run : Char → String → Bool
has_run o s = run_after o 0 s

sanitize_test : sanitize_candidate "a<<<<END>>>" ≡ "a‹‹‹<END›››"
unfolding sanitize_candidate replace_run
sanitize_test = refl

-- With `k` of `o` before it the text does not start with the rest of a run.
abbrev Open : Char → ℕ → String → Type 0
Open o zero s = Unit
Open o (suc zero) (String.◌∷◌ a (String.◌∷◌ b s)) = (code a ≡ code o) → code b ≢ code o
Open o (suc zero) _ = Unit
Open o (suc (suc k)) String.[] = Unit
Open o (suc (suc k)) (String.◌∷◌ a s) = code a ≢ code o

replace_run-clears :
    (o n : Char) (k : ℕ) (s : String)
    → code n ≢ code o
    → k ≤ 2
    → Open o k s
    → run_after o k (replace_run o n s) ≡ false
unfolding replace_run run_after
replace_run-clears o n k String.[] d l p = refl
replace_run-clears o n zero (String.◌∷◌ a String.[]) d l p = ground arith
replace_run-clears o n (suc zero) (String.◌∷◌ a String.[]) d l p = ground arith
replace_run-clears o n (suc (suc k)) (String.◌∷◌ a String.[]) d l p = ground arith
replace_run-clears o n zero (String.◌∷◌ a (String.◌∷◌ b String.[])) d l p = ground arith
replace_run-clears o n (suc zero) (String.◌∷◌ a (String.◌∷◌ b String.[])) d l p = ground arith
replace_run-clears o n (suc (suc k)) (String.◌∷◌ a (String.◌∷◌ b String.[])) d l p = ground arith
replace_run-clears o n zero (String.◌∷◌ a (String.◌∷◌ b (String.◌∷◌ c s))) d l p = ground (
  arith,
  replace_run-clears o n 0 s d (omega arith) tt,
  replace_run-clears o n 1 (String.◌∷◌ b (String.◌∷◌ c s)) d (omega arith),
  replace_run-clears o n 0 (String.◌∷◌ b (String.◌∷◌ c s)) d (omega arith) tt,
)
replace_run-clears o n (suc zero) (String.◌∷◌ a (String.◌∷◌ b (String.◌∷◌ c s))) d l p = ground (
  arith,
  replace_run-clears o n 0 s d (omega arith) tt,
  replace_run-clears o n 2 (String.◌∷◌ b (String.◌∷◌ c s)) d (omega arith),
  replace_run-clears o n 0 (String.◌∷◌ b (String.◌∷◌ c s)) d (omega arith) tt,
)
replace_run-clears o n (suc (suc k)) (String.◌∷◌ a (String.◌∷◌ b (String.◌∷◌ c s))) d l p = ground (
  arith,
  replace_run-clears o n 0 s d (omega arith) tt,
  replace_run-clears o n 0 (String.◌∷◌ b (String.◌∷◌ c s)) d (omega arith) tt,
)

-- Replacing runs of another character by a character that is not `o` makes no new run of `o`.
replace_run-keeps :
    (o p n : Char) (k : ℕ) (s : String)
    → code p ≢ code o
    → code n ≢ code o
    → run_after o k s ≡ false
    → run_after o k (replace_run p n s) ≡ false
unfolding replace_run run_after
replace_run-keeps o p n k String.[] d e h = h
replace_run-keeps o p n k (String.◌∷◌ a String.[]) d e h = h
replace_run-keeps o p n k (String.◌∷◌ a (String.◌∷◌ b String.[])) d e h = h
replace_run-keeps o p n k (String.◌∷◌ a (String.◌∷◌ b (String.◌∷◌ c s))) d e h = ground (
  arith,
  replace_run-keeps o p n 0 s d e,
  replace_run-keeps o p n 0 (String.◌∷◌ b (String.◌∷◌ c s)) d e,
  replace_run-keeps o p n (k + 1) (String.◌∷◌ b (String.◌∷◌ c s)) d e,
)

-- Whatever a proposer answers, the text that goes into the prompt has no three `<` and no three `>`
-- in a row, which every delimiter begins and ends with.
pub sanitize_candidate-no_run :
    (c : String)
    → (has_run "<" (sanitize_candidate c) ≡ false) × (has_run ">" (sanitize_candidate c) ≡ false)
unfolding sanitize_candidate has_run
sanitize_candidate-no_run c = (
  replace_run-keeps "<" ">" "›" 0 (replace_run "<" "‹" c) (omega arith) (omega arith)
      (replace_run-clears "<" "‹" 0 c (omega arith) (omega arith) tt),
  replace_run-clears ">" "›" 0 (replace_run "<" "‹" c) (omega arith) (omega arith) tt,
)
