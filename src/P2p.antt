-- ===== src/P2p.antt =====
-- crates/p2p: what the messages of the network are and which blocks are asked for.
pub mod Message
pub mod Sync
