-- ===== src/Auth.antt =====
-- crates/moaray/src/auth.rs: bearer authentication.
pub mod Sha256
pub mod Compare
pub mod Bearer
pub mod First
pub mod Examples
