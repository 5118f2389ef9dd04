-- ===== src/Tests.antt =====
-- The theorems at concrete inputs, file by file of the program.
pub mod Toy
pub mod Chains
pub mod Pools
pub mod Blocks
pub mod Intake
pub mod Forge
pub mod Finality
pub mod Slots
pub mod Ledger
pub mod Dex
pub mod Market
pub mod Stake
pub mod Committee
pub mod Election
pub mod Delegation
pub mod StakeV1
pub mod Net
