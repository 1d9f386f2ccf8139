-- ===== src/Protocol.antt =====
-- crates/protocol: the internal protocol messages of the node runtime.
pub mod Config
pub mod ReplayCache
pub mod AppSecurity
pub mod Heartbeat
pub mod Reputation
