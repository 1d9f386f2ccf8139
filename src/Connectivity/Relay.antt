-- ===== src/Connectivity/Relay.antt =====
-- crates/connectivity/relay: relayed addresses, reservations, schedules and metering.
pub mod Address
pub mod Retry
pub mod Metering
pub mod Schedule
pub mod Service
pub mod Days
