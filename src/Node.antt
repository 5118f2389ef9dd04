-- ===== src/Node.antt =====
-- crates/node: what ties the components into a running node.
pub mod Finality
pub mod Sync
pub mod Production
