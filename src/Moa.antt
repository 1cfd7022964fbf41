-- ===== src/Moa.antt =====
-- crates/moaray-moa: recipes, the aggregation prompt and the fan-out.
pub mod Recipe
pub mod Sanitize
pub mod Strategy
pub mod Usage
pub mod Arm
pub mod Orchestrator
pub mod Examples
