-- ===== src/Connectivity.antt =====
-- crates/connectivity: connection bookkeeping, peers, relays.
pub mod BoundedSet
pub mod Relay
pub mod Dht
pub mod DirectUpgrade
pub mod Mediator
pub mod PeerBook
pub mod Strategy
pub mod Limits
