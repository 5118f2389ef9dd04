-- ===== src/Vm/Memory.antt =====
-- `Memory` of crates/vm/src/memory.rs. The length of a `Vec` fits a u64.
pub mod Growth
use tron_rs.Prelude.{
  leb, if◌then◌else◌, length, Bytes, ℕ, zero, suc, ◌+◌, ◌-◌, ◌*◌, ◌/◌, [], ◌∷◌, ◌++◌,
}
use tron_rs.Vm.Energy.{memory_expansion_cost, wrap_u64}

pub record Memory : Type 0 where
  pub bytes : Bytes

unfoldable pub words : Memory → ℕ
words memory = wrap_u64 (length memory.bytes + 31) / 32

unfoldable pub zeros : ℕ → Bytes
zeros zero = []
zeros (suc n) = 0 ∷ zeros n

-- `resize` to a length that is not smaller.
abbrev pub grow_to : ℕ → Bytes → Bytes
grow_to len bytes = bytes ++ zeros (len - length bytes)

-- The memory with at least `end` bytes, and the energy to charge.
unfoldable pub expand_to : ℕ → Memory → Memory × ℕ
unfolding words zeros memory_expansion_cost
expand_to end memory =
    if leb end (length memory.bytes)
    then (memory, 0)
    else (let new_words = wrap_u64 (end + 31) / 32 in
        (
          record { bytes = grow_to (new_words * 32) memory.bytes },
          memory_expansion_cost (words memory) new_words,
        ))
