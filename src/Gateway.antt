-- ===== src/Gateway.antt =====
-- crates/moaray/src/app.rs: what the handlers book of a call.
pub mod Accounting
pub mod Booked
pub mod Gates
pub mod Admitted
pub mod Replies
pub mod Handlers
pub mod Metrics
pub mod Dispatch
mod GatesExamples
mod DispatchExamples
mod Examples
