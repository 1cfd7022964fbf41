-- ===== src/Moa/Orchestrator.antt =====
-- crates/moaray-moa/src/orchestrator.rs: the fan-out, the quorum and the aggregation. A run is told
-- when its arms start, in which order they finish, and when the aggregator starts.
pub mod Order
pub mod Outcomes
use moaray.Base.{
  ℕ, zero, suc, ◌-◌, min, String, str_append, Bool, true, false, Option, none, some, List, [], ◌∷◌,
  ◌++◌, map, length, leb, ltb, if◌then◌else◌, is_some, unwrap_or,
}
use moaray.Base.Int.{ℤ, pos, wrapping_add}
use moaray.Base.Dict
use moaray.Base.Dict.{Dict}
use moaray.Base.Result.{Result, err, ◌>>=◌, ok_or}
use moaray.Core.Error.{Error, model_not_found, moa_quorum_failed, internal, upstream_timeout}
use moaray.Core.Json.{Json}
use moaray.Core.Types.{ReqCtx, ChatRequest, ChatResponse, Call, Provider}
use moaray.Moa.Recipe.{Recipe}
use moaray.Moa.Strategy.{build_aggregator_request, value_to_text}
use moaray.Moa.Usage.{extract_text, sum_usage}
use moaray.Moa.Arm.{ArmStatus, ArmOutcome, ArmRun, effective_timeout, arm_request, run_arm}

-- `sort_by_key` on the recipe index: the stable sort.
module _ {A : Type 0} where
  unfoldable pub place : ℕ × A → List (ℕ × A) → List (ℕ × A)
  place x [] = x ∷ []
  place x (y ∷ ys) = if leb x.0 y.0 then x ∷ y ∷ ys else y ∷ place x ys

  unfoldable pub sort_by_index : List (ℕ × A) → List (ℕ × A)
  sort_by_index [] = []
  sort_by_index (x ∷ xs) = place x (sort_by_index xs)

  abbrev pub second : ℕ × A → A
  second x = x.1

module _ (J : Json) where
  pub record MoaRun : Type 0 where
    pub proposers : List ArmOutcome
    pub aggregator : Option ArmOutcome
    pub outcome : Result (ChatResponse J) Error

  -- Every arm as `fan_out` starts it, in recipe order.
  unfoldable pub fan_out :
      (String → Option (Provider J))
      → ReqCtx
      → Recipe
      → ChatRequest J
      → ℕ
      → ℕ
      → List String
      → List (ArmRun J)
  fan_out resolve ctx recipe request now idx [] = []
  fan_out resolve ctx recipe request now idx (p ∷ ps) =
      run_arm J (resolve p) ctx (arm_request J request p) p idx
        (effective_timeout ctx.deadline now recipe.arm_timeout_ms)
      ∷ fan_out resolve ctx recipe request now (suc idx) ps

  unfoldable pub outcomes_idx : List (ArmRun J) → List (ℕ × ArmOutcome)
  outcomes_idx [] = []
  outcomes_idx (a ∷ arms) = (a.idx, a.outcome) ∷ outcomes_idx arms

  push_success : ℕ → Option (ChatResponse J) → List (ℕ × ChatResponse J) → List (ℕ × ChatResponse J)
  push_success i none rest = rest
  push_success i (some resp) rest = (i, resp) ∷ rest

  unfoldable pub successes : List (ArmRun J) → List (ℕ × ChatResponse J)
  unfolding push_success
  successes [] = []
  successes (a ∷ arms) = push_success a.idx a.response (successes arms)

  unfoldable pub usages_of : List (ChatResponse J) → List J.Value
  usages_of [] = []
  usages_of (r ∷ rs) = let rest = usages_of rs in elim r.usage [ none ↦ rest | some u ↦ u ∷ rest ]

  -- The part of `run` from the aggregator's answer on.
  aggregated :
      ReqCtx → Recipe → List ArmOutcome → List (ChatResponse J) → (ArmRun J) → Option Error → MoaRun
  aggregated ctx recipe proposers responses agg failure = elim agg.response [
    | none ↦ record {
      proposers = proposers;
      aggregator = some agg.outcome;
      outcome = err (unwrap_or failure upstream_timeout);
    }
    | some resp ↦ record {
      proposers = proposers;
      aggregator = some agg.outcome;
      outcome = Result.ok (record resp {
        model = some ctx.model;
        usage = some (sum_usage J (usages_of responses ++ usages_of (resp ∷ [])));
      });
    }
  ]

  -- The error that the aggregator itself returned, if it was not cut off.
  own_error : ℕ → Call J → Option Error
  own_error timeout_ms call =
      if leb call.takes timeout_ms
      then elim call.result [ Result.ok resp ↦ none | err e ↦ some e ]
      else none

  unfoldable aggregate :
      (String → Option (Provider J))
      → ReqCtx
      → Recipe
      → ChatRequest J
      → ℕ
      → List ArmOutcome
      → List (ChatResponse J)
      → MoaRun
  unfolding aggregated own_error
  aggregate resolve ctx recipe request now proposers responses =
      let agg_req = build_aggregator_request J recipe request (map (extract_text J) responses) in
      let timeout_ms = effective_timeout ctx.deadline now recipe.arm_timeout_ms in
      elim (resolve recipe.aggregator) [
        | none ↦ record { proposers = proposers; aggregator = none; outcome = err internal }
        | some p ↦
            aggregated ctx recipe proposers responses
              (run_arm J (some p) ctx agg_req recipe.aggregator 0 timeout_ms)
              (own_error timeout_ms (p.chat ctx agg_req))
      ]

  -- From the quorum check on.
  unfoldable pub settle :
      (String → Option (Provider J))
      → ReqCtx
      → Recipe
      → ChatRequest J
      → ℕ
      → List ArmOutcome
      → List (ChatResponse J)
      → MoaRun
  unfolding aggregate
  settle resolve ctx recipe request now proposers responses =
      if ltb (length responses) recipe.quorum
      then record {
        proposers = proposers;
        aggregator = none;
        outcome = err (moa_quorum_failed (length responses) recipe.quorum);
      }
      else aggregate resolve ctx recipe request now proposers responses

  -- `run` behind the fan-out, on the arms in the order in which they finished.
  unfoldable pub conclude :
      (String → Option (Provider J))
      → ReqCtx
      → Recipe
      → ChatRequest J
      → ℕ
      → List (ArmRun J)
      → MoaRun
  conclude resolve ctx recipe request now arms =
      settle resolve ctx recipe request now (map second (sort_by_index (outcomes_idx arms)))
        (map second (sort_by_index (successes arms)))

  -- When the arms and the aggregator start, and the order in which the arms finish.
  pub record Schedule : Type 0 where
    pub fan_out_at : ℕ
    pub aggregate_at : ℕ
    pub finish_order : List (ArmRun J) → List (ArmRun J)

  unfoldable pub run :
      (String → Option (Provider J))
      → Dict Recipe
      → Schedule
      → ReqCtx
      → String
      → ChatRequest J
      → Result MoaRun Error
  run resolve recipes schedule ctx recipe_name request = do
    recipe ← ok_or (Dict.get recipes recipe_name) (model_not_found (str_append "moa/" recipe_name))
    let arms = fan_out resolve ctx recipe request schedule.fan_out_at 0 recipe.proposers
    Result.ok
        (conclude resolve ctx recipe request schedule.aggregate_at (schedule.finish_order arms))
