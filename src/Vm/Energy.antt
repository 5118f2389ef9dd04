-- ===== src/Vm/Energy.antt =====
-- crates/vm/src/energy.rs: the costs in energy. A u64 wraps in a release build.
pub mod Overflow
use tron_rs.Prelude.{ltb, leb, if◌then◌else◌, ℕ, ◌+◌, ◌-◌, ◌*◌, ◌/◌, ◌%◌, ◌^◌, Bool, true, false}

abbrev pub wrap_u64 : ℕ → ℕ
wrap_u64 n = n % 2 ^ 64

abbrev pub saturate_u64 : ℕ → ℕ
saturate_u64 n = if ltb n (2 ^ 64) then n else 2 ^ 64 - 1

abbrev pub set_sstore : ℕ
set_sstore = 20_000

abbrev pub clear_sstore : ℕ
clear_sstore = 5_000

abbrev pub reset_sstore : ℕ
reset_sstore = 5_000

abbrev pub memory_word : ℕ
memory_word = 3

abbrev pub new_acct_call : ℕ
new_acct_call = 25_000

abbrev pub suicide : ℕ
suicide = 0

abbrev pub vote_witness : ℕ
vote_witness = 30_000

unfoldable pub suicide_cost : Bool → ℕ
suicide_cost beneficiary_exists = suicide + (if beneficiary_exists then 0 else new_acct_call)

-- What an array of so many words at an offset takes, with its size word.
unfoldable pub extent : ℕ → ℕ → ℕ
extent off len = saturate_u64 (saturate_u64 (off + saturate_u64 (len * 32)) + 32)

unfoldable pub vote_witness_mem_needed : ℕ → ℕ → ℕ → ℕ → ℕ
unfolding extent
vote_witness_mem_needed witness_offset witness_len amount_offset amount_len =
    let a = extent witness_offset witness_len in
    let b = extent amount_offset amount_len in if ltb b a then a else b

unfoldable pub word_cost : ℕ → ℕ
word_cost w = wrap_u64 (wrap_u64 (memory_word * w) + wrap_u64 (w * w) / 512)

unfoldable pub memory_expansion_cost : ℕ → ℕ → ℕ
unfolding word_cost
memory_expansion_cost cur_words new_words =
    if leb new_words cur_words
    then 0
    else wrap_u64 (word_cost new_words + 2 ^ 64 - word_cost cur_words)

unfoldable pub vote_witness_cost : ℕ → ℕ → ℕ → ℕ → ℕ → ℕ
unfolding vote_witness_mem_needed memory_expansion_cost
vote_witness_cost old_mem_bytes witness_offset witness_len amount_offset amount_len =
    let needed = vote_witness_mem_needed witness_offset witness_len amount_offset amount_len in
    let new_words = wrap_u64 (needed + 31) / 32 in
    wrap_u64 (vote_witness + memory_expansion_cost (old_mem_bytes / 32) new_words)

unfoldable pub sstore_cost : Bool → Bool → ℕ
sstore_cost true false = set_sstore
sstore_cost false true = clear_sstore
sstore_cost _ _ = reset_sstore
