-- ===== src/Tests/Intake.antt =====
-- Two produced blocks, and bytes that are no block, as crates/node/src/sync.rs takes them.
use tron_rs.Prelude.Endian.{i64_to_be, i64_from_be}
use tron_rs.Prelude.{
  ◌==◌, if◌then◌else◌, Bytes, bytes_eq, pos, ◌+ℤ◌, ◌-ℤ◌, wrap_i64, add_i64, sub_i64, ok, err, ◌≡◌,
  refl, true, Option, none, some, [], ◌∷◌, arith,
}
use tron_rs.Tests.Toy.{env, tx₁, tx₂, witness, bare, blank_world}
use tron_rs.Crypto.{recover_address}
use tron_rs.Chain.Merkle.{merkle_root}
use tron_rs.Chain.{Block, tx_trie_root, tx_merkle_leaf, recover_witness}
use tron_rs.Consensus.Producer.{produce_block}
use tron_rs.State.World.{get_prop_i64}
use tron_rs.Node.Sync.{undecodable, apply_synced_blocks_gated}
use tron_rs.Node.Sync.Linked.{Applies, apply_synced_blocks_gated-Applies}

abbrev block₁ : Block
block₁ = produce_block env bare (7 ∷ []) (pos 3000) (tx₁ ∷ tx₂ ∷ []) (pos 1)

abbrev block₂ : Block
block₂ = produce_block env block₁ (7 ∷ []) (pos 6000) (tx₂ ∷ []) (pos 1)

-- The first byte names the block.
abbrev decode_block : Bytes → Option Block
decode_block [] = none
decode_block (b ∷ bytes) = if b == 1 then some block₁ else if b == 2 then some block₂ else none

two_applied :
    (apply_synced_blocks_gated env decode_block blank_world
      ((1 ∷ []) ∷ (2 ∷ []) ∷ [])
      true
      (some (witness ∷ []))).1
    ≡ ok 2
unfolding apply_synced_blocks_gated produce_block bytes_eq tron_rs.Chain.tx_trie_root merkle_root
    tx_merkle_leaf add_i64 wrap_i64 ◌+ℤ◌ i64_from_be sub_i64 ◌-ℤ◌ recover_witness recover_address
    i64_to_be
two_applied = refl

kept_to_the_fault :
    (apply_synced_blocks_gated env decode_block blank_world
      ((1 ∷ []) ∷ (9 ∷ []) ∷ (2 ∷ []) ∷ [])
      true
      (some (witness ∷ []))).1
    ≡ err undecodable
unfolding apply_synced_blocks_gated produce_block bytes_eq tron_rs.Chain.tx_trie_root merkle_root
    tx_merkle_leaf add_i64 wrap_i64 ◌+ℤ◌ i64_from_be sub_i64 ◌-ℤ◌ recover_witness recover_address
kept_to_the_fault = refl

apply_synced_blocks_gated-Applies_example :
    Applies env decode_block true
      (witness ∷ [])
      blank_world
      0
      0
      ((1 ∷ []) ∷ (9 ∷ []) ∷ (2 ∷ []) ∷ [])
      (apply_synced_blocks_gated env decode_block blank_world
        ((1 ∷ []) ∷ (9 ∷ []) ∷ (2 ∷ []) ∷ [])
        true
        (some (witness ∷ [])))
unfolding get_prop_i64
apply_synced_blocks_gated-Applies_example =
    apply_synced_blocks_gated-Applies env decode_block true (witness ∷ []) blank_world 0
      ((1 ∷ []) ∷ (9 ∷ []) ∷ (2 ∷ []) ∷ []) refl (omega arith)
