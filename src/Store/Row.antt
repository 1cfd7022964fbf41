-- ===== src/Store/Row.antt =====
-- crates/moaray-store/src/lib.rs, with the `as_str` texts of crates/moaray-core/src/usage.rs: the
-- columns of a usage row, and reading them back.
use moaray.Base.{String, ◌≡◌, refl, Option, none, some, List, [], ◌∷◌, if◌then◌else◌, str_eq}
use moaray.Base.Int.{ℤ}
use moaray.Core.Usage.{
  UsagePath, UsageArm, UsageStatus, UsageRecord, moa, proposer, aggregator, ok, ok_no_usage,
  unpriced, failed, timeout,
}

-- An SQL value of `rusqlite::params!`.
pub data Column : Type 0 where
  text : String → Column
  integer : ℤ → Column
  null : Column

unfoldable pub path_as_str : UsagePath → String
path_as_str UsagePath.passthrough = "passthrough"
path_as_str moa = "moa"

unfoldable pub arm_as_str : UsageArm → String
arm_as_str UsageArm.passthrough = "passthrough"
arm_as_str proposer = "proposer"
arm_as_str aggregator = "aggregator"

unfoldable pub status_as_str : UsageStatus → String
status_as_str ok = "ok"
status_as_str ok_no_usage = "ok_no_usage"
status_as_str unpriced = "unpriced"
status_as_str failed = "failed"
status_as_str timeout = "timeout"

-- `Option<i64>` as a parameter: `None` is NULL.
abbrev pub nullable : Option ℤ → Column
nullable none = null
nullable (some z) = integer z

unfoldable pub params : UsageRecord → List Column
unfolding path_as_str arm_as_str status_as_str
params r =
    text r.request_id
    ∷ integer r.ts_unix_ms
    ∷ text (path_as_str r.path)
    ∷ text (arm_as_str r.arm)
    ∷ text r.model
    ∷ text r.upstream_id
    ∷ text r.caller_key_id
    ∷ nullable r.prompt_tokens
    ∷ nullable r.completion_tokens
    ∷ nullable r.price_prompt_nano_per_mtok
    ∷ nullable r.price_completion_nano_per_mtok
    ∷ nullable r.cost_nano_usd
    ∷ text (status_as_str r.status)
    ∷ []

-- Reading a row back: what a query over the table can tell.
path_of : String → Option UsagePath
path_of s =
    if str_eq s "passthrough"
    then some UsagePath.passthrough
    else if str_eq s "moa"
    then some moa
    else none

arm_of : String → Option UsageArm
arm_of s =
    if str_eq s "passthrough"
    then some UsageArm.passthrough
    else if str_eq s "proposer"
    then some proposer
    else if str_eq s "aggregator"
    then some aggregator
    else none

status_of : String → Option UsageStatus
status_of s =
    if str_eq s "ok"
    then some ok
    else if str_eq s "ok_no_usage"
    then some ok_no_usage
    else if str_eq s "unpriced"
    then some unpriced
    else if str_eq s "failed"
    then some failed
    else if str_eq s "timeout"
    then some timeout
    else none

text_of : Column → Option String
text_of (text s) = some s
text_of _ = none

integer_of : Column → Option ℤ
integer_of (integer z) = some z
integer_of _ = none

nullable_of : Column → Option (Option ℤ)
nullable_of null = some none
nullable_of (integer z) = some (some z)
nullable_of (text s) = none

infixl 5 ◌>>=◌
abbrev ◌>>=◌ : {A B : Type 0} → Option A → (A → Option B) → Option B
none >>= f = none
some a >>= f = f a

unfoldable pub read_row : List Column → Option UsageRecord
unfolding path_of arm_of status_of text_of integer_of nullable_of
read_row (c1 ∷ c2 ∷ c3 ∷ c4 ∷ c5 ∷ c6 ∷ c7 ∷ c8 ∷ c9 ∷ c10 ∷ c11 ∷ c12 ∷ c13 ∷ []) = do
  request_id ← text_of c1
  ts ← integer_of c2
  path ← text_of c3 >>= path_of
  arm ← text_of c4 >>= arm_of
  model ← text_of c5
  upstream_id ← text_of c6
  caller_key_id ← text_of c7
  prompt_tokens ← nullable_of c8
  completion_tokens ← nullable_of c9
  price_prompt ← nullable_of c10
  price_completion ← nullable_of c11
  cost ← nullable_of c12
  status ← text_of c13 >>= status_of
  some (record {
    request_id = request_id;
    ts_unix_ms = ts;
    path = path;
    arm = arm;
    model = model;
    upstream_id = upstream_id;
    caller_key_id = caller_key_id;
    prompt_tokens = prompt_tokens;
    completion_tokens = completion_tokens;
    price_prompt_nano_per_mtok = price_prompt;
    price_completion_nano_per_mtok = price_completion;
    cost_nano_usd = cost;
    status = status;
  })
read_row _ = none

path_round : (p : UsagePath) → path_of (path_as_str p) ≡ some p
unfolding path_of path_as_str
path_round UsagePath.passthrough = refl
path_round moa = refl

arm_round : (a : UsageArm) → arm_of (arm_as_str a) ≡ some a
unfolding arm_of arm_as_str
arm_round UsageArm.passthrough = refl
arm_round proposer = refl
arm_round aggregator = refl

status_round : (s : UsageStatus) → status_of (status_as_str s) ≡ some s
unfolding status_of status_as_str
status_round ok = refl
status_round ok_no_usage = refl
status_round unpriced = refl
status_round failed = refl
status_round timeout = refl

nullable_round : (o : Option ℤ) → nullable_of (nullable o) ≡ some o
unfolding nullable_of
nullable_round none = refl
nullable_round (some z) = refl

-- The columns of a row determine the record: reading the columns of any record back gives it, with
-- its path, arm and status, and a missing count, price or cost is NULL and never a number.
pub read_row-params : (r : UsageRecord) → read_row (params r) ≡ some r
unfolding read_row params
read_row-params r = rw (
  path_round r.path,
  arm_round r.arm,
  nullable_round r.prompt_tokens,
  nullable_round r.completion_tokens,
  nullable_round r.price_prompt_nano_per_mtok,
  nullable_round r.price_completion_nano_per_mtok,
  nullable_round r.cost_nano_usd,
  status_round r.status,
)
