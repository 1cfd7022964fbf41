-- ===== src/Providers/Sse/Lines.antt =====
-- crates/moaray-providers/src/anthropic_sse.rs: the parser and the lines of the bytes that it gets.
use moaray.Base.{
  ℕ, zero, suc, ◌<◌, ◌≡◌, refl, sym, ap, ◌∙◌, String, false, ◌==◌, if◌then◌else◌, none, some, List,
  [], ◌∷◌, ◌++◌, length, Bool-cases, Option-cases, inl, inr, arith,
}
use mathlib.Core.List.{append-nil, append_assoc}
use moaray.Base.Result.{Result, ok, err, ◌>>=◌}
use moaray.Core.Error.{Error, upstream_error}
use moaray.Core.Json.{Json}
use moaray.Providers.Wire.{Wire}
use moaray.Providers.Sse.{SseEvent, SseParser, split_line, drop_cr, handle_line, drain_lines, push}

abbrev put_front : ℕ → List (List ℕ) × List ℕ → List (List ℕ) × List ℕ
put_front b ([], tail) = ([], b ∷ tail)
put_front b (l ∷ ls, tail) = ((b ∷ l) ∷ ls, tail)

-- The lines that bytes hold, and what is left behind the last line feed.
unfoldable pub lines_of : List ℕ → List (List ℕ) × List ℕ
lines_of [] = ([], [])
lines_of (b ∷ bs) =
    let rest = lines_of bs in if b == b'\n' then ([] ∷ rest.0, rest.1) else put_front b rest

lines_of-split_line :
    (bs : List ℕ) {l r : List ℕ}
    → split_line bs ≡ some (l, r)
    → lines_of bs ≡ (l ∷ (lines_of r).0, (lines_of r).1)
unfolding lines_of split_line
lines_of-split_line [] e = cc
lines_of-split_line (b ∷ bs) {l} {r} e = elim (Bool-cases (b == b'\n')) [
  | inl feed ↦ ground arith
  | inr other ↦ elim (Option-cases (split_line bs)) [
    | inl n ↦ ground arith
    | inr (p, found) ↦ ground (arith, lines_of-split_line bs found)
  ]
]

lines_of-none : (bs : List ℕ) → split_line bs ≡ none → lines_of bs ≡ ([], bs)
unfolding lines_of split_line
lines_of-none [] e = refl
lines_of-none (b ∷ bs) e = elim (Bool-cases (b == b'\n')) [
  | inl feed ↦ ground arith
  | inr other ↦ elim (Option-cases (split_line bs)) [
    | inl n ↦ ground (arith, lines_of-none bs n)
    | inr (p, found) ↦ ground arith
  ]
]

split_line-shorter :
    (bs : List ℕ) {l r : List ℕ} → split_line bs ≡ some (l, r) → length r < length bs
unfolding split_line
split_line-shorter [] e = cc
split_line-shorter (b ∷ bs) e = elim (Bool-cases (b == b'\n')) [
  | inl feed ↦ ground arith
  | inr other ↦ elim (Option-cases (split_line bs)) [
    | inl n ↦ ground arith
    | inr (p, found) ↦ ground (arith, split_line-shorter bs found)
  ]
]

abbrev resume : List ℕ → List (List ℕ) × List ℕ → List (List ℕ) × List ℕ
resume b p = (p.0 ++ (lines_of (p.1 ++ b)).0, (lines_of (p.1 ++ b)).1)

put_front-resume :
    (c : ℕ) (b : List ℕ) (p : List (List ℕ) × List ℕ)
    → (c == b'\n') ≡ false
    → put_front c (resume b p) ≡ resume b (put_front c p)
unfolding lines_of
put_front-resume c b ([], tail) d = rw d refl
put_front-resume c b (l ∷ ls, tail) d = refl

pub lines_of-append : (a b : List ℕ) → lines_of (a ++ b) ≡ resume b (lines_of a)
unfolding lines_of
lines_of-append [] b = refl
lines_of-append (c ∷ a) b = elim (Bool-cases (c == b'\n')) [
  | inl feed ↦ rw (feed, lines_of-append a b) refl
  | inr other ↦ rw (other, lines_of-append a b) (put_front-resume c b (lines_of a) other)
]

front_rest :
    (c : ℕ) (p : List (List ℕ) × List ℕ)
    → (c == b'\n') ≡ false
    → lines_of p.1 ≡ ([], p.1)
    → lines_of (put_front c p).1 ≡ ([], (put_front c p).1)
unfolding lines_of
front_rest c ([], tail) d e = rw (d, e) refl
front_rest c (l ∷ ls, tail) d e = e

-- What is left behind the last line feed holds no line.
rest_of_lines : (a : List ℕ) → lines_of (lines_of a).1 ≡ ([], (lines_of a).1)
unfolding lines_of
rest_of_lines [] = refl
rest_of_lines (c ∷ a) = elim (Bool-cases (c == b'\n')) [
  | inl feed ↦ rw feed (rest_of_lines a)
  | inr other ↦ rw other (front_rest c (lines_of a) other (rest_of_lines a))
]

module _ (J : Json) (W : Wire J) where
  -- The events that lines complete, one line after the other, and the event that is left open.
  unfoldable pub run_lines : List (List ℕ) → SseEvent → Result (SseEvent × List SseEvent) Error
  run_lines [] cur = ok (cur, [])
  run_lines (l ∷ ls) cur =
      elim (W.from_utf8 (drop_cr l)) as (λ o. Result (SseEvent × List SseEvent) Error) [
        | none ↦ err upstream_error
        | some line ↦ run_lines ls (handle_line J W cur line).0 >>= λ r.
            ok (r.0, (handle_line J W cur line).1 ++ r.1)
      ]

  abbrev pub finished : List ℕ → SseEvent × List SseEvent → SseParser × List SseEvent
  finished rest r = (record { buf = rest; cur = r.0 }, r.1)

  -- The lines of the bytes that are there, from the event that is open.
  abbrev pub read_all : SseEvent → List ℕ → Result (SseParser × List SseEvent) Error
  read_all cur bytes = run_lines (lines_of bytes).0 cur >>= λ r. ok (finished (lines_of bytes).1 r)

  pub run_bad :
      (l : List ℕ) (ls : List (List ℕ)) (cur : SseEvent)
      → W.from_utf8 (drop_cr l) ≡ none
      → run_lines (l ∷ ls) cur ≡ err upstream_error
  unfolding run_lines
  run_bad l ls cur e = rw (run_lines, e)

  pub run_good :
      (l : List ℕ) (ls : List (List ℕ)) (cur : SseEvent) {line : String}
      → W.from_utf8 (drop_cr l) ≡ some line
      → run_lines (l ∷ ls) cur ≡ (
          run_lines ls (handle_line J W cur line).0 >>= λ r.
          ok (r.0, (handle_line J W cur line).1 ++ r.1))
  unfolding run_lines
  run_good l ls cur e = rw (run_lines, e)

  drain_bad :
      (fuel : ℕ) (p : SseParser) (out : List SseEvent) {l r : List ℕ}
      → split_line p.buf ≡ some (l, r)
      → W.from_utf8 (drop_cr l) ≡ none
      → drain_lines J W (suc fuel) p out ≡ err upstream_error
  unfolding drain_lines
  drain_bad fuel p out s e = rw (drain_lines, s, e)

  drain_good :
      (fuel : ℕ) (p : SseParser) (out : List SseEvent) {l r : List ℕ} {line : String}
      → split_line p.buf ≡ some (l, r)
      → W.from_utf8 (drop_cr l) ≡ some line
      → drain_lines J W (suc fuel) p out
        ≡ drain_lines J W fuel
            (record { buf = r; cur = (handle_line J W p.cur line).0 })
            (out ++ (handle_line J W p.cur line).1)
  unfolding drain_lines
  drain_good fuel p out s e = rw (drain_lines, s, e)

  abbrev after : List ℕ → List SseEvent → SseEvent × List SseEvent → SseParser × List SseEvent
  after rest out r = (record { buf = rest; cur = r.0 }, out ++ r.1)

  -- The events of the later lines come behind those of the first.
  after_first :
      (rest : List ℕ) (out first : List SseEvent) (m : Result (SseEvent × List SseEvent) Error)
      → (m >>= λ r. ok (after rest (out ++ first) r))
        ≡ ((m >>= λ r. ok (r.0, first ++ r.1)) >>= λ r. ok (after rest out r))
  after_first rest out first (err e) = refl
  after_first rest out first (ok r) =
      ap (λ x. ok (record { buf = rest; cur = r.0 }, x)) (append_assoc out first r.1)

  drained :
      (fuel : ℕ) (p : SseParser) (out : List SseEvent)
      → length p.buf < fuel
      → drain_lines J W fuel p out
        ≡ (run_lines (lines_of p.buf).0 p.cur >>= λ r. ok (after (lines_of p.buf).1 out r))
  unfolding drain_lines run_lines
  drained zero p out h = absurd (omega (arith, h))
  drained (suc fuel) p out h = elim (Option-cases (split_line p.buf)) [
    | inl done ↦
        rw (drain_lines, done, lines_of-none p.buf done)
          (ap (λ x. ok (p, x)) (sym (append-nil out)))
    | inr (s, found) ↦
        rw (lines_of-split_line p.buf found) (elim (Option-cases (W.from_utf8 (drop_cr s.0))) [
          | inl bad ↦
              drain_bad fuel p out found bad
              ∙ ap (λ m. m >>= λ r. ok (after (lines_of s.1).1 out r))
                  (sym (run_bad s.0 (lines_of s.1).0 p.cur bad))
          | inr (line, good) ↦
              drain_good fuel p out found good
              ∙ drained fuel (record { buf = s.1; cur = (handle_line J W p.cur line).0 })
                  (out ++ (handle_line J W p.cur line).1)
                  (omega (arith, h, split_line-shorter p.buf found))
              ∙ after_first (lines_of s.1).1 out (handle_line J W p.cur line).1
                  (run_lines (lines_of s.1).0 (handle_line J W p.cur line).0)
              ∙ ap (λ m. m >>= λ r. ok (after (lines_of s.1).1 out r))
                  (sym (run_good s.0 (lines_of s.1).0 p.cur good))
        ])
  ]

  -- The loop ends, and it reads the buffer and the chunk line by line: after a chunk every complete
  -- line has been handled and only what follows the last line feed is kept, and the first line
  -- that is not UTF-8 is an error.
  pub push-lines :
      (p : SseParser) (chunk : List ℕ) → push J W p chunk ≡ read_all p.cur (p.buf ++ chunk)
  unfolding push
  push-lines p chunk =
      drained (suc (length (p.buf ++ chunk))) (record p { buf = p.buf ++ chunk }) [] (omega arith)
