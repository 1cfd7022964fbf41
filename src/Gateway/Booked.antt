-- ===== src/Gateway/Booked.antt =====
-- crates/moaray/src/app.rs: the rows that are booked say what was run and what it costs.
use moaray.Base.{
  ℕ, All-append, map-append, String, ◌≡◌, refl, ◌↔◌, true, Option, none, some, List, [], ◌∷◌, ◌++◌,
  map, All, arith, is_some, inl, inr, Option-cases,
}
use moaray.Base.Int.{ℤ}
use moaray.Base.Dict
use moaray.Base.Dict.{Dict}
use moaray.Base.Result
use moaray.Config.Runtime.{RuntimeConfig}
use moaray.Core.Json.{Json}
use moaray.Core.Types.{ReqCtx, ChatRequest, Provider}
use moaray.Core.Usage.{UsageArm, proposer, aggregator, UsageRecord, ok, compute_cost}
use moaray.Moa.Recipe.{Recipe}
use moaray.Moa.Arm.{ArmOutcome}
use moaray.Moa.Orchestrator.{MoaRun, fan_out, Schedule, run}
use moaray.Moa.Orchestrator.Order.{Yields}
use moaray.Moa.Orchestrator.Outcomes.{Measured, Reports, run-Reports}
use moaray.Gateway.Accounting.{
  model_prices, usage_status, arm_status, book_moa_arm, book_arms, book_run, book_passthrough,
  listed,
}

-- A row has a cost exactly when its status is ok.
abbrev pub Priced : UsageRecord → Type 0
Priced row = (is_some row.cost_nano_usd ≡ true) ↔ (row.status ≡ ok)

usage_status-Priced :
    (pt ct price_p price_c : Option ℤ)
    → (is_some (compute_cost pt ct price_p price_c) ≡ true)
      ↔ (usage_status pt ct price_p price_c ≡ ok)
unfolding usage_status compute_cost
usage_status-Priced pt ct price_p price_c = ground arith

-- Whatever an upstream reports and a model costs, the row of a passthrough request has a cost exactly
-- when its status is ok.
pub book_passthrough-Priced :
    (config : RuntimeConfig) (request_id caller_key_id : String) (ts : ℤ)
    (model upstream_id : String) (usage : Option (ℤ × ℤ))
    → Priced (book_passthrough config request_id caller_key_id ts model upstream_id usage)
unfolding book_passthrough
book_passthrough-Priced config request_id caller_key_id ts model upstream_id usage =
    let price = model_prices config model in
    elim (Option-cases usage) [
      | inl unknown ↦ rw unknown (usage_status-Priced none none price.0 price.1)
      | inr (t, known) ↦ rw known (usage_status-Priced (some t.0) (some t.1) price.0 price.1)
    ]

book_moa_arm-Priced :
    (config : RuntimeConfig) (request_id caller_key_id : String) (ts : ℤ) (kind : UsageArm)
    (a : ArmOutcome)
    → Measured a
    → Priced (book_moa_arm config request_id caller_key_id ts kind a)
unfolding book_moa_arm arm_status compute_cost
book_moa_arm-Priced config request_id caller_key_id ts kind a m =
    let price = model_prices config a.model in
    ground (arith, m, usage_status-Priced a.prompt_tokens a.completion_tokens price.0 price.1)

module _ (config : RuntimeConfig) (request_id caller_key_id : String) (ts : ℤ) where
  book_arms-Priced :
      (kind : UsageArm) (arms : List ArmOutcome)
      → All Measured arms
      → All Priced (book_arms config request_id caller_key_id ts kind arms)
  unfolding book_arms
  book_arms-Priced kind [] v = tt
  book_arms-Priced kind (a ∷ arms) v = (
    book_moa_arm-Priced config request_id caller_key_id ts kind a v.0,
    book_arms-Priced kind arms v.1,
  )

  book_arms-models :
      (kind : UsageArm) (arms : List ArmOutcome)
      → map (λ (r : UsageRecord). r.model) (book_arms config request_id caller_key_id ts kind arms)
        ≡ map (λ (o : ArmOutcome). o.model) arms
  unfolding book_arms book_moa_arm
  book_arms-models kind [] = refl
  book_arms-models kind (a ∷ arms) = ground (arith, book_arms-models kind arms)

  -- The rows of a run of a recipe: one for each proposer in order, then one for the aggregator, if it
  -- ran.
  pub record Booked {J : Json} (recipe : Recipe) (r : MoaRun J) : Type 0 where
    pub models :
        map (λ (row : UsageRecord). row.model) (book_run config request_id caller_key_id ts r)
        ≡ recipe.proposers ++ map (λ (o : ArmOutcome). o.model) (listed r.aggregator)
    pub priced : All Priced (book_run config request_id caller_key_id ts r)

  listed-Measured :
      (o : Option ArmOutcome)
      → ((a : ArmOutcome) → o ≡ some a → Measured a)
      → All Measured (listed o)
  listed-Measured none h = tt
  listed-Measured (some a) h = (h a refl, tt)

  Reports-Booked :
      (J : Json) (resolve : String → Option (Provider J)) (ctx : ReqCtx) (recipe : Recipe)
      (started aggregated_at : ℕ) (r : MoaRun J)
      → Reports J resolve ctx recipe started aggregated_at r
      → Booked recipe r
  unfolding book_run
  Reports-Booked J resolve ctx recipe started aggregated_at r v = record {
    models = cc (
      map-append (λ (row : UsageRecord). row.model)
          (book_arms config request_id caller_key_id ts proposer r.proposers)
          (book_arms config request_id caller_key_id ts aggregator (listed r.aggregator)),
      book_arms-models proposer r.proposers,
      book_arms-models aggregator (listed r.aggregator),
      v.models,
    );
    priced =
        All-append Priced (book_arms config request_id caller_key_id ts proposer r.proposers)
          (book_arms config request_id caller_key_id ts aggregator (listed r.aggregator))
          (book_arms-Priced proposer r.proposers v.measured)
          (book_arms-Priced aggregator (listed r.aggregator)
            (listed-Measured r.aggregator v.aggregator_measured));
  }

  -- A run of a configured recipe is booked in full, whatever its outcome and the order in which its arms
  -- finish: a row for each proposer in the recipe's order and a row for the aggregator if it ran, each
  -- with a cost exactly when its status is ok.
  pub run-Booked :
      (J : Json) (resolve : String → Option (Provider J)) (recipes : Dict Recipe)
      (schedule : Schedule J) (ctx : ReqCtx) (recipe_name : String) (request : ChatRequest J)
      (recipe : Recipe)
      → Dict.get recipes recipe_name ≡ some recipe
      → (let arms = fan_out J resolve ctx recipe request schedule.fan_out_at 0 recipe.proposers in
          Yields arms (schedule.finish_order arms))
      → (r : MoaRun J) × (run J resolve recipes schedule ctx recipe_name request ≡ Result.ok r)
        × Booked recipe r
  run-Booked J resolve recipes schedule ctx recipe_name request recipe found y =
      let (r, e, v) =
        run-Reports J resolve recipes schedule ctx recipe_name request recipe found y in
      (r, e, Reports-Booked J resolve ctx recipe schedule.fan_out_at schedule.aggregate_at r v)
