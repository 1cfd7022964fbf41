-- ===== src/Config/Validate/Governance.antt =====
-- crates/moaray-config/src/validate.rs: models that share an upstream identity agree on its limits.
use moaray.Base.{
  ℕ, String, ◌≡◌, refl, ap, inl, inr, false, not, Option, none, some, List, [], ◌∷◌, All, All-map,
  arith, Option-cases, str_eq_iff, str_eq_refl,
}
use moaray.Base.Dict
use moaray.Base.Dict.{Dict}
use moaray.Base.Result.{ok, passed, not-failed}
use moaray.Config.Runtime.{RateLimit, ModelConfig}
use moaray.Config.Rules.{rate_limit_eq, number_eq, check_governance}

pub record SameLimits (a b : ModelConfig) : Type 0 where
  pub rate : a.rate_limit ≡ b.rate_limit
  pub concurrency : a.max_concurrency ≡ b.max_concurrency

rate_limit_eq_sound : (a b : Option RateLimit) → not (rate_limit_eq a b) ≡ false → a ≡ b
rate_limit_eq_sound none none h = refl
rate_limit_eq_sound (some a) (some b) h = ground arith
rate_limit_eq_sound none (some b) h = cc
rate_limit_eq_sound (some a) none h = cc

number_eq_sound : (a b : Option ℕ) → not (number_eq a b) ≡ false → a ≡ b
number_eq_sound none none h = refl
number_eq_sound (some a) (some b) h = ground arith
number_eq_sound none (some b) h = cc
number_eq_sound (some a) none h = cc

-- The representative that the table holds for the model's identity has the model's limits.
pub record Agrees (seen : Dict ModelConfig) (m : ModelConfig) : Type 0 where
  pub first : ModelConfig
  pub found : Dict.get seen m.state_key ≡ some first
  pub same : SameLimits first m

-- The table only grows.
abbrev pub Extends : Dict ModelConfig → Dict ModelConfig → Type 0
Extends seen seen' =
    (k : String) (m : ModelConfig) → Dict.get seen k ≡ some m → Dict.get seen' k ≡ some m

pub record Checked (seen : Dict ModelConfig) (ms : List ModelConfig) : Type 0 where
  pub final : Dict ModelConfig
  pub extends : Extends seen final
  pub agree : All (Agrees final) ms

insert-Extends :
    (seen : Dict ModelConfig) (k : String) (m : ModelConfig)
    → Dict.get seen k ≡ none
    → Extends seen (Dict.insert seen k m)
insert-Extends seen k m e j x f = ground (arith, Dict.get-insert seen k j m, str_eq_iff k j)

get-insert_self :
    (seen : Dict ModelConfig) (k : String) (m : ModelConfig)
    → Dict.get (Dict.insert seen k m) k ≡ some m
get-insert_self seen k m = ground (arith, Dict.get-insert seen k k m, str_eq_refl k)

Checked-new :
    (seen : Dict ModelConfig) (m : ModelConfig) (ms : List ModelConfig)
    → Dict.get seen m.state_key ≡ none
    → Checked (Dict.insert seen m.state_key m) ms
    → Checked seen (m ∷ ms)
Checked-new seen m ms e c = record {
  final = c.final;
  extends = λ k x f. c.extends k x (insert-Extends seen m.state_key m e k x f);
  agree = (
    record {
      first = m;
      found = c.extends m.state_key m (get-insert_self seen m.state_key m);
      same = record { rate = refl; concurrency = refl };
    },
    c.agree,
  );
}

Checked-old :
    (seen : Dict ModelConfig) (m first : ModelConfig) (ms : List ModelConfig)
    → Dict.get seen m.state_key ≡ some first
    → SameLimits first m
    → Checked seen ms
    → Checked seen (m ∷ ms)
Checked-old seen m first ms e same c = record {
  final = c.final;
  extends = c.extends;
  agree = (record { first = first; found = c.extends m.state_key first e; same = same }, c.agree);
}

pub check_governance-Checked :
    (seen : Dict ModelConfig) (ms : List ModelConfig)
    → check_governance seen ms ≡ ok tt
    → Checked seen ms
unfolding check_governance
check_governance-Checked seen [] h = record { final = seen; extends = λ k m e. e; agree = tt }
check_governance-Checked seen (m ∷ ms) h = elim (Option-cases (Dict.get seen m.state_key)) [
  | inl e ↦
      Checked-new seen m ms e (
        check_governance-Checked (Dict.insert seen m.state_key m) ms
          (rw (e, check_governance) at h))
  | inr (first, e) ↦
      let one = passed _ _ (rw (e, check_governance) at h) in
      let two = passed _ _ one.second in
      Checked-old seen m first ms e
        (record {
          rate = rate_limit_eq_sound _ _ (not-failed _ _ one.first);
          concurrency = number_eq_sound _ _ (not-failed _ _ two.first);
        })
        (check_governance-Checked seen ms two.second)
]

Agrees-SameLimits :
    (seen : Dict ModelConfig) (a b : ModelConfig)
    → Agrees seen a
    → Agrees seen b
    → a.state_key ≡ b.state_key
    → SameLimits a b
Agrees-SameLimits seen a b p q e =
    let f : p.first ≡ q.first = cc (ap (Dict.get seen) e) in
    record {
      rate = cc (p.same.rate, q.same.rate, ap (λ (m : ModelConfig). m.rate_limit) f);
      concurrency =
          cc
            (p.same.concurrency, q.same.concurrency, ap (λ (m : ModelConfig). m.max_concurrency) f);
    }

-- When the governance check passes, a configured model has the rate limit and the concurrency cap of
-- every model of its upstream identity.
pub check_governance-All :
    (models : Dict ModelConfig) (k : String) (a : ModelConfig)
    → check_governance [] (Dict.values models) ≡ ok tt
    → Dict.get models k ≡ some a
    → All (λ b. a.state_key ≡ b.state_key → SameLimits a b) (Dict.values models)
check_governance-All models k a h e =
    let c = check_governance-Checked [] (Dict.values models) h in
    let mine = Dict.get-values (Agrees c.final) models k c.agree e in
    All-map (λ b. Agrees-SameLimits c.final a b mine) (Dict.values models) c.agree
