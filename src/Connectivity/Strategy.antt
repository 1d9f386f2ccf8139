-- ===== src/Connectivity/Strategy.antt =====
-- crates/connectivity/connection_strategy.rs: how a peer is dialed.
pub mod Transports
pub mod Plan
pub mod Pending
pub mod Order
pub mod Candidates
pub mod Walk
pub mod Places
