-- ===== src/Core.antt =====
-- crates/moaray-core: errors, routing, usage records and costs.
pub mod Error
pub mod Router
pub mod Json
pub mod Types
pub mod Usage
mod Examples
