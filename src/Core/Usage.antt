-- ===== src/Core/Usage.antt =====
-- crates/moaray-core/src/usage.rs: usage records and the cost of a call. Token counts and prices are
-- `i64` values; the products and sums are `i128` values, taken exact here.
pub mod Cost
use moaray.Base.{ℕ, String, ◌+◌, ◌/◌, ◌-◌, ◌^◌, Option, none, some, if◌then◌else◌, ltb}
use moaray.Base.Int.{ℤ, pos, negsuc, ◌+ℤ◌, ◌*ℤ◌, quot}

pub data UsagePath : Type 0 where
  passthrough moa : UsagePath

pub data UsageArm : Type 0 where
  passthrough proposer aggregator : UsageArm

pub data UsageStatus : Type 0 where
  ok ok_no_usage unpriced failed timeout : UsageStatus

pub record UsageRecord : Type 0 where
  pub request_id : String
  pub ts_unix_ms : ℤ
  pub path : UsagePath
  pub arm : UsageArm
  pub model : String
  pub upstream_id : String
  pub caller_key_id : String
  pub prompt_tokens : Option ℤ
  pub completion_tokens : Option ℤ
  pub price_prompt_nano_per_mtok : Option ℤ
  pub price_completion_nano_per_mtok : Option ℤ
  pub cost_nano_usd : Option ℤ
  pub status : UsageStatus

abbrev pub mtok : ℕ
mtok = 1000000

abbrev pub i64_max : ℕ
i64_max = 2 ^ 63 - 1

unfoldable pub rounded : ℤ → ℤ → ℤ
rounded tokens price = tokens *ℤ price +ℤ pos (mtok / 2)

unfoldable pub round_div : ℤ → ℤ → ℤ
unfolding rounded
round_div tokens price = quot (rounded tokens price) mtok

-- `clamp(0, i64::MAX)`.
unfoldable pub clamp_cost : ℤ → ℤ
clamp_cost (pos n) = if ltb i64_max n then pos i64_max else pos n
clamp_cost (negsuc n) = pos 0

infixl 5 ◌>>=◌
abbrev ◌>>=◌ : {A B : Type 0} → Option A → (A → Option B) → Option B
none >>= f = none
some a >>= f = f a

unfoldable pub compute_cost : Option ℤ → Option ℤ → Option ℤ → Option ℤ → Option ℤ
unfolding round_div clamp_cost
compute_cost prompt_tokens completion_tokens price_prompt price_completion = do
  pt ← prompt_tokens
  ct ← completion_tokens
  pp ← price_prompt
  cp ← price_completion
  some (clamp_cost (round_div pt pp +ℤ round_div ct cp))
