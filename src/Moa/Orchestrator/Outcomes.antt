-- ===== src/Moa/Orchestrator/Outcomes.antt =====
-- crates/moaray-moa/src/orchestrator.rs: what a run reports of its arms, whatever becomes of it.
use moaray.Base.{
  ℕ, suc, ◌≤◌, ◌<◌, String, ◌≡◌, refl, ◌⊎◌, Option, none, some, List, [], ◌∷◌, map, length, All,
  arith, inl, inr, ltb, subst, Bool-cases, Option-cases,
}
use moaray.Base.Dict
use moaray.Base.Dict.{Dict}
use moaray.Base.Result.{Result, err}
use moaray.Core.Error.{moa_quorum_failed, internal}
use moaray.Core.Json.{Json}
use moaray.Core.Types.{ReqCtx, ChatRequest, ChatResponse, Provider}
use moaray.Moa.Recipe.{Recipe}
use moaray.Moa.Strategy.{build_aggregator_request}
use moaray.Moa.Usage.{extract_text}
use moaray.Moa.Arm.{ok, ArmOutcome, ArmRun, effective_timeout, arm_request, run_arm}
use moaray.Moa.Orchestrator.{
  MoaRun, second, outcomes_idx, successes, fan_out, aggregate, settle, Schedule, run,
}
use moaray.Moa.Orchestrator.Order.{Yields, conclude-settles}

-- How many of the outcomes carry an answer.
abbrev pub ok_count : List ArmOutcome → ℕ
ok_count [] = 0
ok_count (o ∷ os) = elim o.status [ ok ↦ suc (ok_count os) | _ ↦ ok_count os ]

-- Tokens are counted for answers alone.
abbrev pub Measured : ArmOutcome → Type 0
Measured o = (o.status ≡ ok) ⊎ (o.prompt_tokens ≡ none)

module _ (J : Json) where
  -- An arm that tells its model, keeps to its time, and has an answer exactly when its status is ok.
  pub record Honest (model : String) (timeout_ms : ℕ) (a : ArmRun J) : Type 0 where
    pub named : a.outcome.model ≡ model
    pub in_time : a.outcome.latency_ms ≤ timeout_ms
    pub measured : Measured a.outcome
    pub counted :
        (a.response ≡ none × (ok_count (a.outcome ∷ []) ≡ 0))
        ⊎ ((resp : ChatResponse J) × (a.response ≡ some resp) × (a.outcome.status ≡ ok))

  run_arm-Honest :
      (provider : Option (Provider J)) (ctx : ReqCtx) (req : ChatRequest J) (model : String)
      (idx timeout_ms : ℕ)
      → Honest model timeout_ms (run_arm J provider ctx req model idx timeout_ms)
  unfolding run_arm
  run_arm-Honest none ctx req model idx timeout_ms = record {
    named = refl;
    in_time = omega arith;
    measured = inr refl;
    counted = inl (refl, refl);
  }
  run_arm-Honest (some p) ctx req model idx timeout_ms = ground arith

  module _ (resolve : String → Option (Provider J)) (ctx : ReqCtx) (recipe : Recipe)
      (request : ChatRequest J) (now : ℕ) where
    fan_out-models :
        (idx : ℕ) (ps : List String)
        → map
            (λ (o : ArmOutcome). o.model)
            (map second (outcomes_idx J (fan_out J resolve ctx recipe request now idx ps)))
          ≡ ps
    unfolding fan_out outcomes_idx
    fan_out-models idx [] = refl
    fan_out-models idx (p ∷ ps) = ground (
      arith,
      fan_out-models (suc idx) ps,
      (run_arm-Honest (resolve p) ctx (arm_request J request p) p idx
          (effective_timeout ctx.deadline now recipe.arm_timeout_ms)).named,
    )

    fan_out-in_time :
        (idx : ℕ) (ps : List String)
        → All
            (λ (o : ArmOutcome).
              o.latency_ms ≤ effective_timeout ctx.deadline now recipe.arm_timeout_ms)
            (map second (outcomes_idx J (fan_out J resolve ctx recipe request now idx ps)))
    unfolding fan_out outcomes_idx
    fan_out-in_time idx [] = tt
    fan_out-in_time idx (p ∷ ps) = (
      (run_arm-Honest (resolve p) ctx (arm_request J request p) p idx
          (effective_timeout ctx.deadline now recipe.arm_timeout_ms)).in_time,
      fan_out-in_time (suc idx) ps,
    )

    fan_out-Measured :
        (idx : ℕ) (ps : List String)
        → All Measured
            (map second (outcomes_idx J (fan_out J resolve ctx recipe request now idx ps)))
    unfolding fan_out outcomes_idx
    fan_out-Measured idx [] = tt
    fan_out-Measured idx (p ∷ ps) = (
      (run_arm-Honest (resolve p) ctx (arm_request J request p) p idx
          (effective_timeout ctx.deadline now recipe.arm_timeout_ms)).measured,
      fan_out-Measured (suc idx) ps,
    )

    fan_out-counted :
        (idx : ℕ) (ps : List String)
        → length (map second (successes J (fan_out J resolve ctx recipe request now idx ps)))
          ≡ ok_count (map second (outcomes_idx J (fan_out J resolve ctx recipe request now idx ps)))
    unfolding fan_out outcomes_idx successes
    fan_out-counted idx [] = refl
    fan_out-counted idx (p ∷ ps) = ground (
      arith,
      fan_out-counted (suc idx) ps,
      (run_arm-Honest (resolve p) ctx (arm_request J request p) p idx
          (effective_timeout ctx.deadline now recipe.arm_timeout_ms)).counted,
    )

  -- What a run tells of a recipe whose fan-out started at `started` and whose aggregator, if any, at
  -- `aggregated_at`.
  pub record Reports (resolve : String → Option (Provider J)) (ctx : ReqCtx) (recipe : Recipe)
      (started aggregated_at : ℕ) (r : MoaRun J) : Type 0 where
    pub models : map (λ (o : ArmOutcome). o.model) r.proposers ≡ recipe.proposers
    pub in_time :
        All
          (λ (o : ArmOutcome).
            o.latency_ms ≤ effective_timeout ctx.deadline started recipe.arm_timeout_ms)
          r.proposers
    pub measured : All Measured r.proposers
    pub aggregator_measured : (a : ArmOutcome) → r.aggregator ≡ some a → Measured a
    pub no_quorum :
        ok_count r.proposers < recipe.quorum
        → (r.aggregator ≡ none)
          × (r.outcome ≡ err (moa_quorum_failed (ok_count r.proposers) recipe.quorum))
    pub unresolved :
        recipe.quorum ≤ ok_count r.proposers
        → resolve recipe.aggregator ≡ none
        → (r.aggregator ≡ none) × (r.outcome ≡ err internal)
    pub aggregated :
        (p : Provider J)
        → recipe.quorum ≤ ok_count r.proposers
        → resolve recipe.aggregator ≡ some p
        → (a : ArmOutcome) × (r.aggregator ≡ some a)
          × (a.model ≡ recipe.aggregator)
          × (a.latency_ms ≤ effective_timeout ctx.deadline aggregated_at recipe.arm_timeout_ms)
    pub answered :
        (resp : ChatResponse J)
        → r.outcome ≡ Result.ok resp
        → (resp.model ≡ some ctx.model) × (recipe.quorum ≤ ok_count r.proposers)

  settle-Reports :
      (resolve : String → Option (Provider J)) (ctx : ReqCtx) (recipe : Recipe)
      (request : ChatRequest J) (started aggregated_at : ℕ) (proposers : List ArmOutcome)
      (responses : List (ChatResponse J))
      → map (λ (o : ArmOutcome). o.model) proposers ≡ recipe.proposers
      → All
          (λ (o : ArmOutcome).
            o.latency_ms ≤ effective_timeout ctx.deadline started recipe.arm_timeout_ms)
          proposers
      → All Measured proposers
      → length responses ≡ ok_count proposers
      → Reports resolve ctx recipe started aggregated_at
          (settle J resolve ctx recipe request aggregated_at proposers responses)
  unfolding settle aggregate
  settle-Reports resolve ctx recipe request started aggregated_at proposers responses m t v c =
      record {
        models = ground (arith, m);
        in_time = ground (arith, t);
        measured = ground (arith, v);
        aggregator_measured = λ a e. elim (Option-cases (resolve recipe.aggregator)) [
          | inl gone ↦ ground (arith, e, gone)
          | inr (p, here) ↦
              let agg_req =
                build_aggregator_request J recipe request (map (extract_text J) responses) in
              let limit = effective_timeout ctx.deadline aggregated_at recipe.arm_timeout_ms in
              let agg = run_arm J (some p) ctx agg_req recipe.aggregator 0 limit in
              let h = run_arm-Honest (some p) ctx agg_req recipe.aggregator 0 limit in
              elim (Bool-cases (ltb (length responses) recipe.quorum)) [
                | inl few ↦ ground (arith, few, e)
                | inr enough ↦
                    let same : agg.outcome ≡ a = ground (arith, enough, here, e) in
                    subst Measured same h.measured
              ]
        ];
        no_quorum = ground (arith, c);
        unresolved = ground (arith, c);
        aggregated = λ p q e.
            let agg_req =
              build_aggregator_request J recipe request (map (extract_text J) responses) in
            let limit = effective_timeout ctx.deadline aggregated_at recipe.arm_timeout_ms in
            let agg = run_arm J (some p) ctx agg_req recipe.aggregator 0 limit in
            let h = run_arm-Honest (some p) ctx agg_req recipe.aggregator 0 limit in
            (agg.outcome, ground (arith, c, q, e), h.named, h.in_time);
        answered = ground (arith, c);
      }

  -- A run of a configured recipe gives a result, whatever the order in which its arms finish. The
  -- result lists one outcome for each proposer, in the recipe's order, each within the recipe's arm
  -- timeout and the request's deadline, and tokens are counted for answers alone. With fewer answers than the quorum no aggregator ran and the
  -- error says how many there were; otherwise an aggregator without provider is an internal error, and
  -- one with a provider is reported under its model and within its time. An answer needs the quorum
  -- and carries the requested model's name.
  pub run-Reports :
      (resolve : String → Option (Provider J)) (recipes : Dict Recipe) (schedule : Schedule J)
      (ctx : ReqCtx) (recipe_name : String) (request : ChatRequest J) (recipe : Recipe)
      → Dict.get recipes recipe_name ≡ some recipe
      → (let arms = fan_out J resolve ctx recipe request schedule.fan_out_at 0 recipe.proposers in
          Yields arms (schedule.finish_order arms))
      → (r : MoaRun J) × (run J resolve recipes schedule ctx recipe_name request ≡ Result.ok r)
        × Reports resolve ctx recipe schedule.fan_out_at schedule.aggregate_at r
  unfolding run
  run-Reports resolve recipes schedule ctx recipe_name request recipe found y =
      let arms = fan_out J resolve ctx recipe request schedule.fan_out_at 0 recipe.proposers in
      (
        settle J resolve ctx recipe request schedule.aggregate_at (map second (outcomes_idx J arms))
            (map second (successes J arms)),
        rw (
          found,
          conclude-settles J resolve ctx recipe request schedule.fan_out_at schedule.aggregate_at _
              y,
        ),
        settle-Reports resolve ctx recipe request schedule.fan_out_at schedule.aggregate_at
            (map second (outcomes_idx J arms)) (map second (successes J arms))
            (fan_out-models resolve ctx recipe request schedule.fan_out_at 0 recipe.proposers)
            (fan_out-in_time resolve ctx recipe request schedule.fan_out_at 0 recipe.proposers)
            (fan_out-Measured resolve ctx recipe request schedule.fan_out_at 0 recipe.proposers)
            (fan_out-counted resolve ctx recipe request schedule.fan_out_at 0 recipe.proposers),
      )
