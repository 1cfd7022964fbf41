-- ===== src/Core/Usage/Cost.antt =====
-- crates/moaray-core/src/usage.rs: `compute_cost` is total where it is defined, stays in range, and
-- is the exact cost up to rounding.
use moaray.Base.{
  ℕ, suc, ◌+◌, ◌/◌, ◌*◌, ◌^◌, ◌≤◌, ◌<◌, min, ◌≡◌, refl, Option, some, is_some, ◌&&◌, arith,
}
use moaray.Base.Int.{ℤ, pos, negsuc, pos_part, neg_part, ◌+ℤ◌, ◌*ℤ◌, quot, Fits}
use moaray.Core.Usage.{rounded, round_div, clamp_cost, compute_cost, mtok, i64_max}

clamp_cost_range : (z : ℤ) → (neg_part (clamp_cost z) ≡ 0) × (pos_part (clamp_cost z) ≤ i64_max)
unfolding clamp_cost
clamp_cost_range (pos n) = ground arith
clamp_cost_range (negsuc n) = ground arith

-- A cost is computed exactly when both token counts and both prices are there, and it is a number
-- from 0 to `i64::MAX`, also for negative token counts.
pub compute_cost-defined :
    (pt ct pp cp : Option ℤ)
    → (is_some (compute_cost pt ct pp cp) ≡ (is_some pt && is_some ct && is_some pp && is_some cp))
      × ((c : ℤ) → compute_cost pt ct pp cp ≡ some c → (neg_part c ≡ 0) × (pos_part c ≤ i64_max))
unfolding compute_cost
compute_cost-defined (some t) (some u) (some p) (some q) =
    (refl, λ c e. ground (arith, clamp_cost_range (round_div t p +ℤ round_div u q)))
compute_cost-defined pt ct pp cp = (ground arith, λ c e. ground arith)

round_div-pos : (a p : ℕ) → round_div (pos a) (pos p) ≡ pos ((a * p + 500000) / mtok)
unfolding round_div ◌+ℤ◌ ◌*ℤ◌ quot
round_div-pos a p = ground arith

abbrev exact_cost : ℕ → ℕ → ℕ → ℕ → ℕ
exact_cost a b p q = (a * p + 500000) / mtok + (b * q + 500000) / mtok

-- For counts and prices that are not negative the cost is the sum of the two sides, each rounded
-- to the nearest nano-dollar, cut off at `i64::MAX`: a cost below the cut differs from the exact
-- price, counted in millionths, by at most one nano-dollar.
pub compute_cost-rounds :
    (a b p q : ℕ)
    → let n = min i64_max (exact_cost a b p q) in
      (compute_cost (some (pos a)) (some (pos b)) (some (pos p)) (some (pos q)) ≡ some (pos n))
      × (n < i64_max → (n * mtok ≤ a * p + b * q + mtok) × (a * p + b * q ≤ n * mtok + mtok))
unfolding compute_cost ◌+ℤ◌
compute_cost-rounds a b p q =
    (ground (arith, round_div-pos a p, round_div-pos b q), λ h. omega arith)

mul_bound : (a b : ℕ) → a ≤ 2 ^ 63 → b ≤ 2 ^ 63 → a * b ≤ 2 ^ 126
mul_bound a b h k = grind arith

abbrev Below : ℕ → ℤ → Type 0
Below n z = (pos_part z ≤ n) × (neg_part z ≤ n)

mul-Below : (t p : ℤ) → Fits 64 t → Fits 64 p → Below (2 ^ 126) (t *ℤ p)
unfolding ◌*ℤ◌
mul-Below (pos a) (pos b) ft fp = ground (arith, mul_bound a b)
mul-Below (pos a) (negsuc b) ft fp = ground (arith, mul_bound a (suc b))
mul-Below (negsuc a) (pos b) ft fp = ground (arith, mul_bound (suc a) b)
mul-Below (negsuc a) (negsuc b) ft fp = ground (arith, mul_bound (suc a) (suc b))

rounded-Below : (t p : ℤ) → Below (2 ^ 126) (t *ℤ p) → Below (2 ^ 126 + 500000) (rounded t p)
unfolding rounded ◌+ℤ◌
rounded-Below t p b = ground arith

round_div-Below :
    (t p : ℤ) → Below (2 ^ 126 + 500000) (rounded t p) → Below (2 ^ 125) (round_div t p)
unfolding round_div quot
round_div-Below t p b = ground arith

add-Below : (a b : ℤ) → Below (2 ^ 125) a → Below (2 ^ 125) b → Fits 128 (a +ℤ b)
unfolding ◌+ℤ◌
add-Below a b h k = ground arith

-- No `i128` step of the cost overflows: with `i64` counts and prices the product, with the half
-- added, and the sum of the two rounded sides fit.
pub compute_cost-Fits :
    (t p u q : ℤ)
    → Fits 64 t
    → Fits 64 p
    → Fits 64 u
    → Fits 64 q
    → Fits 128 (t *ℤ p) × Fits 128 (rounded t p) × Fits 128 (round_div t p +ℤ round_div u q)
compute_cost-Fits t p u q ft fp fu fq =
    let prod = mul-Below t p ft fp in
    let half = rounded-Below t p prod in
    let other = rounded-Below u q (mul-Below u q fu fq) in
    (
      omega arith,
      omega arith,
      add-Below (round_div t p) (round_div u q) (round_div-Below t p half)
          (round_div-Below u q other),
    )
