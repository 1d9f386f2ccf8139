-- ===== src/Node.antt =====
-- crates/node: the node that composes the parts.
pub mod Dial
pub mod AutoConnect
