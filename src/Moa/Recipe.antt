-- ===== src/Moa/Recipe.antt =====
-- crates/moaray-moa/src/recipe.rs
use moaray.Base.{ℕ, String, List}

pub data Strategy : Type 0 where
  concat_synthesize quorum_judge : Strategy

pub record Recipe : Type 0 where
  pub name : String
  pub proposers : List String
  pub aggregator : String
  pub strategy : Strategy
  pub arm_timeout_ms : ℕ
  pub quorum : ℕ
