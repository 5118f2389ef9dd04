-- ===== src/Consensus.antt =====
-- crates/consensus: fork choice, finality, scheduling, election, rewards and the pending pool.
pub mod Fork
pub mod Pbft
pub mod Schedule
pub mod Election
pub mod Reward
pub mod Mempool
pub mod Validation
pub mod Producer
