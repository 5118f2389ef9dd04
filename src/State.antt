-- ===== src/State.antt =====
-- crates/state: the world state.
pub mod World
pub mod Blocks
