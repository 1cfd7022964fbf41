-- ===== src/Breaker/Probes.antt =====
-- crates/moaray/src/breaker.rs with the calls in flight: every call hands back the token that it
-- was admitted under, and only the holder of a probe token releases the probe slot
-- (`ProbeReleaseGuard` in crates/moaray/src/governed.rs). Calls interleave freely.
use moaray.Base.{ℕ, suc, ◌≤◌, ◌≡◌, refl, true, arith, if◌then◌else◌}
use moaray.Core.Error.{Error}
use moaray.Base.Result.{ok, err}
use moaray.Breaker.{
  half_open, Admission, normal, probe, Breaker, new, check_at, on_success_at, on_failure_at,
  release_probe,
}
use moaray.Config.Runtime.{BreakerConfig}

-- The breaker with the numbers of admitted calls that have not reported yet.
pub record System : Type 0 where
  pub breaker : Breaker
  pub normals : ℕ
  pub probes : ℕ

abbrev pub start : BreakerConfig → System
start cfg = record { breaker = new cfg; normals = 0; probes = 0 }

pub data Outcome : Type 0 where
  succeeded failed : Outcome

pub report : Breaker → Outcome → ℕ → Admission → Breaker
report b succeeded now a = on_success_at b now a
report b failed now a = on_failure_at b now a

pub data Step (s : System) : System → Type 0 where
  admit_normal :
      (now : ℕ) {b : Breaker}
      → check_at s.breaker now ≡ (b, ok normal)
      → Step s (record s { breaker = b; normals = suc s.normals })
  admit_probe :
      (now : ℕ) {b : Breaker}
      → check_at s.breaker now ≡ (b, ok probe)
      → Step s (record s { breaker = b; probes = suc s.probes })
  refuse :
      (now : ℕ) {b : Breaker} {e : Error}
      → check_at s.breaker now ≡ (b, err e)
      → Step s (record s { breaker = b })
  report_normal :
      (o : Outcome) (now n : ℕ)
      → s.normals ≡ suc n
      → Step s (record s { breaker = report s.breaker o now normal; normals = n })
  report_probe :
      (o : Outcome) (now n : ℕ)
      → s.probes ≡ suc n
      → Step s (record s { breaker = report s.breaker o now probe; probes = n })
  drop_normal : (n : ℕ) → s.normals ≡ suc n → Step s (record s { normals = n })
  drop_probe :
      (n : ℕ)
      → s.probes ≡ suc n
      → Step s (record s { breaker = release_probe s.breaker; probes = n })

pub data Reach (s : System) : System → Type 0 where
  here : Reach s s
  next : {t u : System} → Reach s t → Step t u → Reach s u

-- The slot is taken exactly while one probe is out, and then the breaker is half-open.
pub record IsExclusive (s : System) : Type 0 where
  pub slot : s.probes ≡ (if s.breaker.probe_in_flight then 1 else 0)
  pub only_half_open : s.breaker.probe_in_flight ≡ true → s.breaker.state ≡ half_open

pub Step-IsExclusive : {s t : System} → Step s t → IsExclusive s → IsExclusive t
unfolding report check_at on_success_at on_failure_at release_probe
Step-IsExclusive (admit_normal now e) v = ground arith
Step-IsExclusive (admit_probe now e) v = ground arith
Step-IsExclusive (refuse now e) v = ground arith
Step-IsExclusive (report_normal o now n e) v = ground arith
Step-IsExclusive (report_probe o now n e) v = ground arith
Step-IsExclusive (drop_normal n e) v = ground arith
Step-IsExclusive (drop_probe n e) v = ground arith

Reach-IsExclusive : {s t : System} → Reach s t → IsExclusive s → IsExclusive t
Reach-IsExclusive here v = v
Reach-IsExclusive (next r st) v = Step-IsExclusive st (Reach-IsExclusive r v)

-- In every interleaving of calls on a new breaker at most one probe is out, and while one is out
-- the breaker is half-open with its slot taken.
pub single_probe :
    (cfg : BreakerConfig) (s : System)
    → Reach (start cfg) s
    → (s.probes ≤ 1)
      × (1 ≤ s.probes → (s.breaker.state ≡ half_open) × (s.breaker.probe_in_flight ≡ true))
unfolding new
single_probe cfg s r =
    ground (arith, Reach-IsExclusive r (record { slot = refl; only_half_open = λ e. cc }))
