-- ===== src/Vm/Energy/Overflow.antt =====
-- `vote_witness_cost` of crates/vm/src/energy.rs at the end of the range.
use tron_rs.Prelude.{ℕ, ◌+◌, ◌-◌, ◌*◌, ◌^◌, ◌≤◌, ◌<◌, ◌≡◌, arith}
use tron_rs.Vm.Energy.{
  vote_witness_cost, saturate_u64, vote_witness, extent, vote_witness_mem_needed,
  memory_expansion_cost,
}

saturate_u64-lt : (n : ℕ) → saturate_u64 n < 2 ^ 64
saturate_u64-lt n = ground arith

extent-lt : (off len : ℕ) → extent off len < 2 ^ 64
unfolding extent
extent-lt off len = saturate_u64-lt (saturate_u64 (off + saturate_u64 (len * 32)) + 32)

mem_needed_lt : (wo wl ao al : ℕ) → vote_witness_mem_needed wo wl ao al < 2 ^ 64
unfolding vote_witness_mem_needed
mem_needed_lt wo wl ao al = ground (arith, extent-lt wo wl, extent-lt ao al)

-- An access that needs the last 31 bytes of the range of a u64 or more, as every saturated one does, is
-- charged for no memory at all.
pub vote_witness_cost-overflow :
    (old wo wl ao al : ℕ)
    → 2 ^ 64 - 31 ≤ vote_witness_mem_needed wo wl ao al
    → vote_witness_cost old wo wl ao al ≡ vote_witness
unfolding vote_witness_cost memory_expansion_cost
vote_witness_cost-overflow old wo wl ao al h = ground (arith, mem_needed_lt wo wl ao al)
