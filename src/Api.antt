-- ===== src/Api.antt =====
-- crates/api: the application-facing primitives.
pub mod Source
pub mod Message
pub mod Fragmentation
pub mod Envelope
