-- ===== src/Proxy.antt =====
-- internal/proxy: the enforcement proxy.
pub mod TokenCount
pub mod Anthropic
pub mod Sse
pub mod Effects
pub mod Respond
pub mod Upstream
pub mod Steps
pub mod Handle
