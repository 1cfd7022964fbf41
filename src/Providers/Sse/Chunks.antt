-- ===== src/Providers/Sse/Chunks.antt =====
-- crates/moaray-providers/src/anthropic_sse.rs: the parser across chunk boundaries.
use moaray.Base.{ℕ, ◌≡◌, refl, sym, ap, ◌∙◌, List, [], ◌∷◌, ◌++◌, Option-cases, inl, inr}
use mathlib.Core.List.{append_assoc}
use moaray.Base.Result.{Result, ok, err, ◌>>=◌}
use moaray.Core.Error.{Error}
use moaray.Core.Json.{Json}
use moaray.Providers.Wire.{Wire}
use moaray.Providers.Sse.{SseEvent, SseParser, drop_cr, handle_line, push}
use moaray.Providers.Sse.Lines.{
  lines_of, lines_of-append, run_lines, run_bad, run_good, finished, read_all, push-lines,
}

-- One reading after the other: the events of both, and what the second leaves.
abbrev both :
    {A : Type 0}
    → List SseEvent
    → Result (A × List SseEvent) Error
    → Result (A × List SseEvent) Error
both es m = m >>= λ q. ok (q.0, es ++ q.1)

both_twice :
    {A : Type 0} (es fs : List SseEvent) (m : Result (A × List SseEvent) Error)
    → both (es ++ fs) m ≡ both es (both fs m)
both_twice es fs (err e) = refl
both_twice es fs (ok q) = ap (λ x. ok (q.0, x)) (append_assoc es fs q.1)

module _ (J : Json) (W : Wire J) where
  both_then :
      (es : List SseEvent) (m : Result (SseEvent × List SseEvent) Error) (ys : List (List ℕ))
      → both es (m >>= λ r. both r.1 (run_lines J W ys r.0))
        ≡ (both es m >>= λ r. both r.1 (run_lines J W ys r.0))
  both_then es (err e) ys = refl
  both_then es (ok r) ys = sym (both_twice es r.1 (run_lines J W ys r.0))

  both_nothing : {A : Type 0} (m : Result (A × List SseEvent) Error) → both [] m ≡ m
  both_nothing (err e) = refl
  both_nothing (ok q) = refl

  run_lines-append :
      (xs ys : List (List ℕ)) (cur : SseEvent)
      → run_lines J W (xs ++ ys) cur
        ≡ (run_lines J W xs cur >>= λ r. both r.1 (run_lines J W ys r.0))
  unfolding run_lines
  run_lines-append [] ys cur = sym (both_nothing (run_lines J W ys cur))
  run_lines-append (l ∷ xs) ys cur = elim (Option-cases (W.from_utf8 (drop_cr l))) [
    | inl bad ↦
        run_bad J W l (xs ++ ys) cur bad
        ∙ ap (λ m. m >>= λ r. both r.1 (run_lines J W ys r.0)) (sym (run_bad J W l xs cur bad))
    | inr (line, good) ↦
        run_good J W l (xs ++ ys) cur good
        ∙ ap (both (handle_line J W cur line).1)
            (run_lines-append xs ys (handle_line J W cur line).0)
        ∙ both_then (handle_line J W cur line).1 (run_lines J W xs (handle_line J W cur line).0) ys
        ∙ ap (λ m. m >>= λ r. both r.1 (run_lines J W ys r.0)) (sym (run_good J W l xs cur good))
  ]

  finish_both :
      (tail : List ℕ) (es : List SseEvent) (m : Result (SseEvent × List SseEvent) Error)
      → (both es m >>= λ r. ok (finished J W tail r))
        ≡ both es (m >>= λ r. ok (finished J W tail r))
  finish_both tail es (err e) = refl
  finish_both tail es (ok r) = refl

  finish_all :
      (rest tail : List ℕ) (ls : List (List ℕ)) (m : Result (SseEvent × List SseEvent) Error)
      → ((m >>= λ r. both r.1 (run_lines J W ls r.0)) >>= λ r. ok (finished J W tail r)) ≡ (
          (m >>= λ r. ok (finished J W rest r)) >>= λ s.
          both s.1 (run_lines J W ls s.0.cur >>= λ r. ok (finished J W tail r)))
  finish_all rest tail ls (err e) = refl
  finish_all rest tail ls (ok r) = finish_both tail r.1 (run_lines J W ls r.0)

  read_all-append :
      (cur : SseEvent) (x b : List ℕ)
      → read_all J W cur (x ++ b)
        ≡ (read_all J W cur x >>= λ s. both s.1 (read_all J W s.0.cur ((lines_of x).1 ++ b)))
  read_all-append cur x b =
      ap (λ p. run_lines J W p.0 cur >>= λ r. ok (finished J W p.1 r)) (lines_of-append x b)
      ∙ ap (λ m. m >>= λ r. ok (finished J W tail r)) (run_lines-append (lines_of x).0 ls cur)
      ∙ finish_all (lines_of x).1 tail ls (run_lines J W (lines_of x).0 cur)
    where
      ls : List (List ℕ)
      ls = (lines_of ((lines_of x).1 ++ b)).0

      tail : List ℕ
      tail = (lines_of ((lines_of x).1 ++ b)).1

  kept_rest :
      (rest b : List ℕ) (m : Result (SseEvent × List SseEvent) Error)
      → ((m >>= λ r. ok (finished J W rest r)) >>= λ s. both s.1 (read_all J W s.0.cur (rest ++ b)))
        ≡ ((m >>= λ r. ok (finished J W rest r)) >>= λ s. both s.1 (push J W s.0 b))
  kept_rest rest b (err e) = refl
  kept_rest rest b (ok r) = ap (both r.1) (sym (push-lines J W _ b))

  -- Two chunks are as good as one: the bytes of both pushed at once give the events of the first chunk
  -- followed by those of the second, the same parser, and the same error if there is one; so a
  -- line, a character or an event may be split anywhere.
  pub push-append :
      (p : SseParser) (a b : List ℕ)
      → push J W p (a ++ b) ≡ (push J W p a >>= λ s. push J W s.0 b >>= λ q. ok (q.0, s.1 ++ q.1))
  push-append p a b =
      push-lines J W p (a ++ b)
      ∙ ap (read_all J W p.cur) (sym (append_assoc p.buf a b))
      ∙ read_all-append p.cur (p.buf ++ a) b
      ∙ kept_rest (lines_of (p.buf ++ a)).1 b (run_lines J W (lines_of (p.buf ++ a)).0 p.cur)
      ∙ ap (λ m. m >>= λ s. both s.1 (push J W s.0 b)) (sym (push-lines J W p a))
