-- ===== src/Moa/Orchestrator/Order.antt =====
-- crates/moaray-moa/src/orchestrator.rs: the order in which the arms finish does not matter.
use moaray.Base.{
  ℕ, suc, ◌≤◌, String, ◌≡◌, refl, sym, ◌∙◌, subst, Option, none, some, List, [], ◌∷◌, map, arith,
  Option-cases, inl, inr,
}
use moaray.Core.Json.{Json}
use moaray.Core.Types.{ReqCtx, ChatRequest, ChatResponse, Provider}
use moaray.Moa.Recipe.{Recipe}
use moaray.Moa.Arm.{ArmRun, effective_timeout, arm_request, run_arm}
use moaray.Moa.Orchestrator.{
  place, sort_by_index, second, outcomes_idx, successes, fan_out, settle, conclude,
}

module _ {A : Type 0} where
  -- One of the pending arms finishes, and which are left.
  pub data Picks (x : A) : List A → List A → Type 0 where
    first : {xs : List A} → Picks x (x ∷ xs) xs
    later : {y : A} {xs ys : List A} → Picks x xs ys → Picks x (y ∷ xs) (y ∷ ys)

  -- `FuturesUnordered`: the pending arms come out one at a time, in any order.
  pub data Yields : List A → List A → Type 0 where
    done : Yields [] []
    next : {x : A} {xs ys out : List A} → Picks x xs ys → Yields ys out → Yields xs (x ∷ out)

  pub Yields-refl : (xs : List A) → Yields xs xs
  Yields-refl [] = done
  Yields-refl (x ∷ xs) = next first (Yields-refl xs)

module _ (J : Json) where
  -- Arms with recipe indices that rise from `n` on.
  abbrev pub Ascending : ℕ → List (ArmRun J) → Type 0
  Ascending n [] = Unit
  Ascending n (a ∷ arms) = (n ≤ a.idx) × Ascending (suc a.idx) arms

  Ascending-mono : {n m : ℕ} (arms : List (ArmRun J)) → n ≤ m → Ascending m arms → Ascending n arms
  Ascending-mono [] l v = tt
  Ascending-mono (a ∷ arms) l v = (omega arith, v.1)

  Picks-Ascending :
      {x : ArmRun J} (n : ℕ) {xs ys : List (ArmRun J)}
      → Picks x xs ys
      → Ascending n xs
      → Ascending n ys × (n ≤ x.idx)
  Picks-Ascending n (first {xs = xs}) v = (Ascending-mono xs (omega arith) v.1, v.0)
  Picks-Ascending n (later {y = y} p) v =
      let (rest, above) = Picks-Ascending (suc y.idx) p v.1 in ((v.0, rest), omega arith)

  place-outcomes_idx :
      {x : ArmRun J} (n : ℕ) {xs ys : List (ArmRun J)}
      → Picks x xs ys
      → Ascending n xs
      → place (x.idx, x.outcome) (outcomes_idx J ys) ≡ outcomes_idx J xs
  unfolding place outcomes_idx
  place-outcomes_idx n (first {xs = []}) v = refl
  place-outcomes_idx n (first {xs = y ∷ xs}) v = ground arith
  place-outcomes_idx n (later {y = y} p) v =
      ground (arith, place-outcomes_idx (suc y.idx) p v.1, Picks-Ascending (suc y.idx) p v.1)

  pub sort-outcomes_idx :
      (n : ℕ) {pending out : List (ArmRun J)}
      → Yields pending out
      → Ascending n pending
      → sort_by_index (outcomes_idx J out) ≡ outcomes_idx J pending
  unfolding sort_by_index outcomes_idx
  sort-outcomes_idx n done v = refl
  sort-outcomes_idx n (next p y) v =
      rw (sort-outcomes_idx n y (Picks-Ascending n p v).0) (place-outcomes_idx n p v)

  -- Placing a success below every index of the list puts it first.
  place-first :
      (i n : ℕ) (resp : ChatResponse J) (arms : List (ArmRun J))
      → i ≤ n
      → Ascending n arms
      → place (i, resp) (successes J arms) ≡ (i, resp) ∷ successes J arms
  unfolding place successes
  place-first i n resp [] l v = refl
  place-first i n resp (a ∷ arms) l v =
      ground (arith, place-first i (suc a.idx) resp arms (omega arith) v.1)

  place-successes :
      {x : ArmRun J} (resp : ChatResponse J) (n : ℕ) {xs ys : List (ArmRun J)}
      → x.response ≡ some resp
      → Picks x xs ys
      → Ascending n xs
      → place (x.idx, resp) (successes J ys) ≡ successes J xs
  unfolding place successes
  place-successes {x} resp n e (first {xs = xs}) v =
      ground (arith, place-first x.idx (suc x.idx) resp xs (omega arith) v.1, e)
  place-successes resp n e (later {y = y} p) v =
      ground (arith, place-successes resp (suc y.idx) e p v.1, Picks-Ascending (suc y.idx) p v.1)

  drop-successes :
      {x : ArmRun J} {xs ys : List (ArmRun J)}
      → Picks x xs ys
      → x.response ≡ none
      → successes J ys ≡ successes J xs
  unfolding successes
  drop-successes first e = ground arith
  drop-successes (later p) e = ground (arith, drop-successes p e)

  pub sort-successes :
      (n : ℕ) {pending out : List (ArmRun J)}
      → Yields pending out
      → Ascending n pending
      → sort_by_index (successes J out) ≡ successes J pending
  unfolding sort_by_index successes
  sort-successes n done v = refl
  sort-successes n (next {x = x} p y) v = elim (Option-cases x.response) [
    | inl e ↦
        let rest = sort-successes n y (Picks-Ascending n p v).0 in
        ground (arith, rest, drop-successes p e)
    | inr (resp, e) ↦
        let rest = sort-successes n y (Picks-Ascending n p v).0 in
        ground (arith, rest, place-successes resp n e p v)
  ]

  pub run_arm-idx :
      (provider : Option (Provider J)) (ctx : ReqCtx) (req : ChatRequest J) (model : String)
      (idx timeout_ms : ℕ)
      → (run_arm J provider ctx req model idx timeout_ms).idx ≡ idx
  unfolding run_arm
  run_arm-idx none ctx req model idx timeout_ms = refl
  run_arm-idx (some p) ctx req model idx timeout_ms = ground arith

  fan_out-Ascending :
      (resolve : String → Option (Provider J)) (ctx : ReqCtx) (recipe : Recipe)
      (request : ChatRequest J) (now idx : ℕ) (ps : List String)
      → Ascending idx (fan_out J resolve ctx recipe request now idx ps)
  unfolding fan_out run_arm
  fan_out-Ascending resolve ctx recipe request now idx [] = tt
  fan_out-Ascending resolve ctx recipe request now idx (p ∷ ps) =
      let at =
        run_arm-idx (resolve p) ctx (arm_request J request p) p idx
          (effective_timeout ctx.deadline now recipe.arm_timeout_ms) in
      (
        omega (arith, at),
        subst (λ n. Ascending (suc n) (fan_out J resolve ctx recipe request now (suc idx) ps))
            (sym at) (fan_out-Ascending resolve ctx recipe request now (suc idx) ps),
      )

  pub conclude-settles :
      (resolve : String → Option (Provider J)) (ctx : ReqCtx) (recipe : Recipe)
      (request : ChatRequest J) (started now : ℕ) (out : List (ArmRun J))
      → Yields (fan_out J resolve ctx recipe request started 0 recipe.proposers) out
      → conclude J resolve ctx recipe request now out
        ≡ settle J resolve ctx recipe request now
            (map second
              (outcomes_idx J (fan_out J resolve ctx recipe request started 0 recipe.proposers)))
            (map second
              (successes J (fan_out J resolve ctx recipe request started 0 recipe.proposers)))
  unfolding conclude
  conclude-settles resolve ctx recipe request started now out y =
      let rising = fan_out-Ascending resolve ctx recipe request started 0 recipe.proposers in
      rw (sort-outcomes_idx 0 y rising, sort-successes 0 y rising)

  -- Whatever the order in which the arms of a fan-out finish, the run comes to the same as if they had
  -- finished in recipe order: the same outcomes, the same answer or error.
  pub conclude-any_order :
      (resolve : String → Option (Provider J)) (ctx : ReqCtx) (recipe : Recipe)
      (request : ChatRequest J) (started now : ℕ) (out : List (ArmRun J))
      → Yields (fan_out J resolve ctx recipe request started 0 recipe.proposers) out
      → conclude J resolve ctx recipe request now out
        ≡ conclude J resolve ctx recipe request now
            (fan_out J resolve ctx recipe request started 0 recipe.proposers)
  conclude-any_order resolve ctx recipe request started now out y =
      let arms = fan_out J resolve ctx recipe request started 0 recipe.proposers in
      conclude-settles resolve ctx recipe request started now out y
      ∙ sym (conclude-settles resolve ctx recipe request started now arms (Yields-refl arms))
