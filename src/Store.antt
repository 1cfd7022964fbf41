-- ===== src/Store.antt =====
-- crates/moaray-store/src/lib.rs: the sink that queues usage records and the writer thread that
-- stores them in batches. `rusqlite` is a parameter.
pub mod Row
pub mod Database
pub mod Writer
pub mod Equations
pub mod Ledger
pub mod Run
pub mod Kept
pub mod Ordered
pub mod Idle
pub mod Open
pub mod Shutdown
pub mod Sinks
mod Examples
