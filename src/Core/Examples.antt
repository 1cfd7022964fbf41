-- ===== src/Core/Examples.antt =====
-- crates/moaray-core on the inputs of its unit tests.
use moaray.Base.{◌+◌, ◌*◌, ◌≤◌, ◌<◌, ◌≡◌, refl, Bool, false, none, some, is_some, str_eq, String}
use moaray.Base.Text.{strip_prefix}
use moaray.Base.Int.{ℤ, pos, pos_part, neg_part, ◌+ℤ◌, ◌*ℤ◌, quot}
use moaray.Core.Error.{envelope, rate_limited}
use moaray.Core.Error.Matrix.{FitsStatus, envelope-FitsStatus}
use moaray.Core.Router.{route, moa, Names, route-Names}
use moaray.Core.Usage.{compute_cost, rounded, i64_max, mtok}
use moaray.Core.Usage.Cost.{compute_cost-defined, compute_cost-rounds}

envelope-FitsStatus_example :
    FitsStatus (envelope rate_limited).status (envelope rate_limited).error_type
envelope-FitsStatus_example = envelope-FitsStatus rate_limited

abbrev knows : String → Bool
knows m = str_eq m "gpt-5.5"

routes_moa_prefix : route "moa/arm-e" knows ≡ moa "arm-e"
unfolding route strip_prefix
routes_moa_prefix = refl

route-Names_example : Names knows "moa/arm-e" (route "moa/arm-e" knows)
route-Names_example = route-Names "moa/arm-e" knows

sums_prompt_and_completion :
    compute_cost (some (pos 1000)) (some (pos 500)) (some (pos 150000000)) (some (pos 600000000))
    ≡ some (pos 450000)
unfolding compute_cost rounded ◌+ℤ◌ ◌*ℤ◌ quot
sums_prompt_and_completion = refl

compute_cost-defined_example :
    (is_some (compute_cost (some (pos 3)) none (some (pos 1)) (some (pos 1))) ≡ false)
    × ((c : ℤ)
        → compute_cost (some (pos 3)) none (some (pos 1)) (some (pos 1)) ≡ some c
        → (neg_part c ≡ 0) × (pos_part c ≤ i64_max))
compute_cost-defined_example =
    compute_cost-defined (some (pos 3)) none (some (pos 1)) (some (pos 1))

compute_cost-rounds_example :
    (compute_cost (some (pos 500001)) (some (pos 0)) (some (pos 1)) (some (pos 1)) ≡ some (pos 1))
    × (1 < i64_max
        → (1 * mtok ≤ 500001 * 1 + 0 * 1 + mtok) × (500001 * 1 + 0 * 1 ≤ 1 * mtok + mtok))
compute_cost-rounds_example = compute_cost-rounds 500001 0 1 1
