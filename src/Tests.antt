-- ===== src/Tests.antt =====
-- Runs of the model on concrete inputs, and the theorems applied to them.
pub mod Samples
pub mod Fragmentation
pub mod Envelope
pub mod Protocol
pub mod Heartbeat
pub mod Reputation
pub mod Connectivity
pub mod PeerBook
pub mod Dial
pub mod Dht
pub mod Relay
