-- ===== src/Moa/Arm.antt =====
-- crates/moaray-moa/src/orchestrator.rs: one arm, from its timeout to its outcome.
use moaray.Base.{ℕ, ◌-◌, min, String, Bool, false, Option, none, some, leb, if◌then◌else◌, is_some}
use moaray.Base.Int.{ℤ}
use moaray.Base.Result.{Result, err}
use moaray.Core.Error.{Error}
use moaray.Core.Json.{Json}
use moaray.Core.Types.{ReqCtx, ChatRequest, ChatResponse, Provider}
use moaray.Moa.Usage.{extract_tokens}

pub data ArmStatus : Type 0 where
  ok timeout error : ArmStatus

pub record ArmOutcome : Type 0 where
  pub model : String
  pub upstream_id : String
  pub latency_ms : ℕ
  pub status : ArmStatus
  pub usage_present : Bool
  pub prompt_tokens : Option ℤ
  pub completion_tokens : Option ℤ

-- `deadline.saturating_duration_since(now)`, cut by the recipe's budget.
unfoldable pub effective_timeout : ℕ → ℕ → ℕ → ℕ
effective_timeout deadline now arm_timeout_ms = min arm_timeout_ms (deadline - now)

-- An arm that brought no usable response.
abbrev pub failed_arm : String → String → ℕ → ArmStatus → ArmOutcome
failed_arm model upstream_id latency_ms status = record {
  model = model;
  upstream_id = upstream_id;
  latency_ms = latency_ms;
  status = status;
  usage_present = false;
  prompt_tokens = none;
  completion_tokens = none;
}

module _ (J : Json) where
  pub record ArmRun : Type 0 where
    pub idx : ℕ
    pub outcome : ArmOutcome
    pub response : Option (ChatResponse J)

  unfoldable pub arm_request : ChatRequest J → String → ChatRequest J
  arm_request original model = record original { model = model; stream = some false }

  -- The outcome of an arm whose response arrived.
  answered : String → String → ℕ → ChatResponse J → ArmOutcome
  answered model upstream_id latency_ms resp =
      let (prompt_tokens, completion_tokens) = extract_tokens J resp.usage in
      record {
        model = model;
        upstream_id = upstream_id;
        latency_ms = latency_ms;
        status = ok;
        usage_present = is_some resp.usage;
        prompt_tokens = prompt_tokens;
        completion_tokens = completion_tokens;
      }

  arm_result : String → String → ℕ → ℕ → Result (ChatResponse J) Error → ArmRun
  unfolding answered
  arm_result model upstream_id latency_ms idx (Result.ok resp) = record {
    idx = idx;
    outcome = answered model upstream_id latency_ms resp;
    response = some resp;
  }
  arm_result model upstream_id latency_ms idx (err e) = record {
    idx = idx;
    outcome = failed_arm model upstream_id latency_ms error;
    response = none;
  }

  unfoldable pub run_arm : Option (Provider J) → ReqCtx → ChatRequest J → String → ℕ → ℕ → ArmRun
  unfolding arm_result
  run_arm none ctx req model idx timeout_ms = record {
    idx = idx;
    outcome = failed_arm model model 0 error;
    response = none;
  }
  run_arm (some p) ctx req model idx timeout_ms =
      let call = p.chat ctx req in
      if leb call.takes timeout_ms
      then arm_result model p.upstream_id call.takes idx call.result
      else record {
        idx = idx;
        outcome = failed_arm model p.upstream_id timeout_ms timeout;
        response = none;
      }
