-- ===== src/Providers.antt =====
-- crates/moaray-providers/src: the adapters between the gateway and its upstreams.
pub mod Wire
pub mod Status
pub mod Request
pub mod Completion
pub mod Faithful
pub mod Sse
pub mod OpenAi
pub mod Anthropic
mod Examples
