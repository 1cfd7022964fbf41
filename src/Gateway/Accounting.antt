-- ===== src/Gateway/Accounting.antt =====
-- crates/moaray/src/app.rs: the usage rows of a request.
use moaray.Base.{String, Bool, true, false, Option, none, some, List, [], ◌∷◌, ◌++◌, ◌&&◌, is_some}
use moaray.Base.Int.{ℤ}
use moaray.Base.Dict
use moaray.Config.Runtime.{ModelConfig, RuntimeConfig}
use moaray.Core.Json.{Json}
use moaray.Core.Usage.{
  UsagePath, UsageArm, proposer, aggregator, UsageStatus, ok, ok_no_usage, unpriced, failed,
  timeout, UsageRecord, compute_cost,
}
use moaray.Core.Usage
use moaray.Moa.Arm.{ArmStatus, ArmOutcome}
use moaray.Moa.Arm
use moaray.Moa.Orchestrator.{MoaRun}

prices_of : Option ModelConfig → Option ℤ × Option ℤ
prices_of none = (none, none)
prices_of (some m) = (m.price_prompt_nano_per_mtok, m.price_completion_nano_per_mtok)

unfoldable pub model_prices : RuntimeConfig → String → Option ℤ × Option ℤ
unfolding prices_of
model_prices config model = prices_of (Dict.get config.models model)

status_from : Bool → Bool → UsageStatus
status_from false priced = ok_no_usage
status_from true true = ok
status_from true false = unpriced

unfoldable pub usage_status : Option ℤ → Option ℤ → Option ℤ → Option ℤ → UsageStatus
unfolding status_from
usage_status pt ct price_p price_c =
    status_from (is_some pt && is_some ct) (is_some price_p && is_some price_c)

unfoldable pub arm_status : ArmStatus → Option ℤ → Option ℤ → Option ℤ → Option ℤ → UsageStatus
arm_status Arm.timeout pt ct price_p price_c = timeout
arm_status Arm.error pt ct price_p price_c = failed
arm_status Arm.ok pt ct price_p price_c = usage_status pt ct price_p price_c

-- The row that `book_moa_arm` hands to the sink.
unfoldable pub book_moa_arm :
    RuntimeConfig → String → String → ℤ → UsageArm → ArmOutcome → UsageRecord
book_moa_arm config request_id caller_key_id ts_unix_ms arm_kind arm =
    let (price_p, price_c) = model_prices config arm.model in
    record {
      request_id = request_id;
      ts_unix_ms = ts_unix_ms;
      path = Usage.UsagePath.moa;
      arm = arm_kind;
      model = arm.model;
      upstream_id = arm.upstream_id;
      caller_key_id = caller_key_id;
      prompt_tokens = arm.prompt_tokens;
      completion_tokens = arm.completion_tokens;
      price_prompt_nano_per_mtok = price_p;
      price_completion_nano_per_mtok = price_c;
      cost_nano_usd = compute_cost arm.prompt_tokens arm.completion_tokens price_p price_c;
      status = arm_status arm.status arm.prompt_tokens arm.completion_tokens price_p price_c;
    }

unfoldable pub book_arms :
    RuntimeConfig → String → String → ℤ → UsageArm → List ArmOutcome → List UsageRecord
book_arms config request_id caller_key_id ts kind [] = []
book_arms config request_id caller_key_id ts kind (a ∷ arms) =
    book_moa_arm config request_id caller_key_id ts kind a
    ∷ book_arms config request_id caller_key_id ts kind arms

abbrev pub listed : Option ArmOutcome → List ArmOutcome
listed none = []
listed (some a) = a ∷ []

-- The rows that `run_moa` books, whatever the outcome of the run.
unfoldable pub book_run :
    {J : Json} → RuntimeConfig → String → String → ℤ → MoaRun J → List UsageRecord
book_run config request_id caller_key_id ts run =
    book_arms config request_id caller_key_id ts proposer run.proposers
    ++ book_arms config request_id caller_key_id ts aggregator (listed run.aggregator)

tokens_of : Option (ℤ × ℤ) → Option ℤ × Option ℤ
tokens_of none = (none, none)
tokens_of (some (p, c)) = (some p, some c)

-- The row of an answered passthrough request that does not stream.
unfoldable pub book_passthrough :
    RuntimeConfig → String → String → ℤ → String → String → Option (ℤ × ℤ) → UsageRecord
unfolding tokens_of
book_passthrough config request_id caller_key_id ts model upstream_id usage =
    let (price_p, price_c) = model_prices config model in
    let (pt, ct) = tokens_of usage in
    record {
      request_id = request_id;
      ts_unix_ms = ts;
      path = Usage.UsagePath.passthrough;
      arm = Usage.UsageArm.passthrough;
      model = model;
      upstream_id = upstream_id;
      caller_key_id = caller_key_id;
      prompt_tokens = pt;
      completion_tokens = ct;
      price_prompt_nano_per_mtok = price_p;
      price_completion_nano_per_mtok = price_c;
      cost_nano_usd = compute_cost pt ct price_p price_c;
      status = usage_status pt ct price_p price_c;
    }
