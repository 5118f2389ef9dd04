-- ===== src/Vm.antt =====
-- crates/vm: what running a contract costs.
pub mod Energy
pub mod Memory
