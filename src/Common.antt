-- ===== src/Common.antt =====
-- crates/common: what every part of the program uses.
pub mod Error
pub mod Text
pub mod Multiaddr
