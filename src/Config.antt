-- ===== src/Config.antt =====
-- crates/moaray-config: the validated configuration and its validation.
pub mod Runtime
pub mod Schema
pub mod Rules
pub mod Validate
pub mod Defaults
pub mod Load
pub mod Examples
