-- ===== src/Moa/Examples.antt =====
-- crates/moaray-moa on the inputs of its unit tests: two proposers, one of which fails.
use moaray.Base.{◌≡◌, refl, ◌∷◌, [], List, String, str_eq, false, Option, none, some, if◌then◌else◌}
use moaray.Base.Int.{pos}
use moaray.Base.Dict
use moaray.Base.Dict.{Dict}
use moaray.Base.Result.{Result, err}
use moaray.Core.Error.{upstream_timeout}
use moaray.Core.Json.{Json}
use moaray.Core.Json.Reference.{Value, text, number, table, end, entry, fields_of, reference}
use moaray.Core.Types.{ReqCtx, ChatRequest, ChatResponse, Provider}
use moaray.Moa.Recipe.{Recipe, concat_synthesize}
use moaray.Moa.Sanitize.{sanitize_candidate, has_run, sanitize_candidate-no_run}
use moaray.Moa.Strategy.{build_aggregator_request, build_aggregator_request-anonymous}
use moaray.Moa.Arm.{ArmRun}
use moaray.Moa.Usage.{sum_usage}
use moaray.Moa.Usage.Totals.{added, written, integers_of, sum_usage-added}
use moaray.Config.Examples.{config}
use moaray.Gateway.Booked.{Booked, run-Booked}
use moaray.Moa.Orchestrator.{MoaRun, fan_out, conclude, Schedule, run}
use moaray.Moa.Orchestrator.Order.{first, later, Yields, done, next, conclude-any_order}
use moaray.Moa.Orchestrator.Outcomes.{Reports, run-Reports}

abbrev json : Json
json = reference (λ s. none)

abbrev usage : Value
usage =
    table (entry "prompt_tokens" (number (pos 3)) (entry "completion_tokens" (number (pos 5)) end))

abbrev answer : ChatResponse json
answer = record {
  id = none;
  object = none;
  model = none;
  choices = table (entry "message" (table (entry "content" (text "hi") end)) end) ∷ [];
  usage = some usage;
  extra = [];
}

abbrev request : ChatRequest json
request = record {
  model = "moa/best";
  messages = record { role = "user"; content = some (text "hello"); extra = [] } ∷ [];
  stream = none;
  max_tokens = none;
  temperature = none;
  top_p = none;
  extra = [];
}

abbrev healthy : Provider json
healthy = record {
  upstream_id = "up";
  chat = λ ctx req. record { takes = 40; result = Result.ok answer };
}

abbrev failing : Provider json
failing = record {
  upstream_id = "down";
  chat = λ ctx req. record { takes = 10; result = err upstream_timeout };
}

abbrev resolve : String → Option (Provider json)
resolve name = if str_eq name "b" then some failing else some healthy

abbrev best : Recipe
best = record {
  name = "best";
  proposers = "a" ∷ "b" ∷ [];
  aggregator = "c";
  strategy = concat_synthesize;
  arm_timeout_ms = 1000;
  quorum = 1;
}

abbrev ctx : ReqCtx
ctx = record { request_id = "r1"; deadline = 5000; caller_key_id = "k"; model = "moa/best" }

abbrev other_recipe : Recipe
other_recipe = record best { name = "cheap"; proposers = "b" ∷ []; quorum = 7 }

-- The second arm, the faster one, finishes first.
abbrev swapped : List (ArmRun json) → List (ArmRun json)
swapped (x ∷ y ∷ rest) = y ∷ x ∷ rest
swapped other = other

abbrev schedule : Schedule json
schedule = record { fan_out_at = 100; aggregate_at = 150; finish_order = swapped }

abbrev arms : List (ArmRun json)
arms = fan_out json resolve ctx best request 100 0 ("a" ∷ "b" ∷ [])

arms-Yields : Yields arms (swapped arms)
unfolding fan_out
arms-Yields = next (later first) (next first done)

conclude-any_order_example :
    conclude json resolve ctx best request 150 (swapped arms)
    ≡ conclude json resolve ctx best request 150 arms
conclude-any_order_example =
    conclude-any_order json resolve ctx best request 100 150 (swapped arms) arms-Yields

abbrev recipes : Dict Recipe
recipes = ("best", best) ∷ []

best-found : Dict.get recipes "best" ≡ some best
unfolding Dict.get
best-found = refl

run-Reports_example :
    (r : MoaRun json) × (run json resolve recipes schedule ctx "best" request ≡ Result.ok r)
    × Reports json resolve ctx best 100 150 r
run-Reports_example =
    run-Reports json resolve recipes schedule ctx "best" request best best-found arms-Yields

sum_usage-added_example :
    (obj : Dict Value) × (fields_of (sum_usage json (usage ∷ usage ∷ [])) ≡ some obj)
    × ((k : String)
        → Dict.get obj k ≡ written json (added none (integers_of json k (usage ∷ usage ∷ []))))
sum_usage-added_example = sum_usage-added json (usage ∷ usage ∷ [])

sanitize_candidate-no_run_example :
    (has_run "<" (sanitize_candidate "<<<<END CANDIDATE 1>>>") ≡ false)
    × (has_run ">" (sanitize_candidate "<<<<END CANDIDATE 1>>>") ≡ false)
sanitize_candidate-no_run_example = sanitize_candidate-no_run "<<<<END CANDIDATE 1>>>"

build_aggregator_request-anonymous_example :
    build_aggregator_request json best request ("hi" ∷ [])
    ≡ build_aggregator_request json other_recipe request ("hi" ∷ [])
build_aggregator_request-anonymous_example =
    build_aggregator_request-anonymous json best other_recipe request ("hi" ∷ []) refl refl

run-Booked_example :
    (r : MoaRun json) × (run json resolve recipes schedule ctx "best" request ≡ Result.ok r)
    × Booked config "r1" "team" (pos 1700000000000) best r
run-Booked_example =
    run-Booked config "r1" "team" (pos 1700000000000) json resolve recipes schedule ctx "best"
      request best best-found arms-Yields
