-- ===== src/Connectivity/Dht.antt =====
-- crates/connectivity/dht.rs and dht/state.rs: what a node keeps of its searches in the DHT: the
-- providers it found, the peers it connects to by itself and the queries in progress.
pub mod State
pub mod Ordered
pub mod Consistent
pub mod Histories
pub mod Retry
pub mod Queries
pub mod Lookups
