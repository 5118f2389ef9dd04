-- ===== src/Tests/Forge.antt =====
-- A node that produces the first block after the genesis block, as crates/node/src/production.rs does.
use tron_rs.Prelude.Endian.{i64_to_be, i64_from_be}
use tron_rs.Prelude.{
  ◌==◌, if◌then◌else◌, Bytes, bytes_eq, pos, ◌+ℤ◌, ◌*ℤ◌, wrap_i64, add_i64, mul_i64, ok, ◌≡◌, refl,
  true, Option, none, some, [], ◌∷◌, arith,
}
use tron_rs.Tests.Toy.{env, witness, blank_world, zeros, toy-IsSound}
use tron_rs.Chain.{Block}
use tron_rs.Consensus.Schedule.{slot_of, scheduled_witness}
use tron_rs.Consensus.Mempool.{new}
use tron_rs.Consensus.Producer.{produce_from_pool}
use tron_rs.State.World.{World}
use tron_rs.State.Blocks.{put_block, get_block_by_num}
use tron_rs.Actuators.Maintenance.{get_active_witnesses, put_active_witnesses}
use tron_rs.Node.Production.{try_produce, apply_produced, header_ts_num}
use tron_rs.Node.Production.Head.{HasHead}
use tron_rs.Tests.Toy.{toy-IsSound}
use tron_rs.Node.Sync.{apply_synced_blocks_gated}
use tron_rs.Node.Production.Adopted.{produced_block_adopted}
use tron_rs.Node.Production.Once.{produced_once}

abbrev genesis_block : Block
genesis_block = record {
  transactions = [];
  block_header = some (record {
    raw_data = some (record {
      timestamp = pos 1000;
      tx_trie_root = zeros 32;
      parent_hash = zeros 32;
      number = pos 0;
      witness_address = [];
      version = pos 0;
    });
    witness_signature = [];
  });
}

abbrev begun : World
begun = put_active_witnesses (witness ∷ []) (put_block env genesis_block blank_world)

abbrev first_block : Block
first_block = produce_from_pool env genesis_block (7 ∷ []) (pos 7000) (new 10) 1000 (pos 30)

begun-HasHead : HasHead begun (pos 1000) 0 genesis_block (pos 1000)
unfolding get_block_by_num put_active_witnesses put_block header_ts_num i64_to_be i64_from_be
begun-HasHead = record {
  genesis = genesis_block;
  genesis_number = pos 0;
  first = refl;
  begun = refl;
  latest = refl;
  found = refl;
  numbered = refl;
}

first_is_made : try_produce env begun (new 10) (7 ∷ []) (pos 9000) ≡ some first_block
unfolding try_produce put_active_witnesses put_block i64_to_be i64_from_be slot_of scheduled_witness
    bytes_eq add_i64 wrap_i64 ◌+ℤ◌ mul_i64 ◌*ℤ◌
first_is_made = refl

produced_once_example :
    HasHead (apply_produced env begun (new 10) first_block).0.0 (pos 1000) 1 first_block (pos 7000)
    × (try_produce env
          (apply_produced env begun (new 10) first_block).0.0
          (new 10)
          (7 ∷ [])
          (pos 9999)
        ≡ none)
unfolding slot_of
produced_once_example =
    produced_once env begun (new 10) (new 10) (7 ∷ []) (7 ∷ []) 1000 9000 9999 0 (pos 1000)
      genesis_block first_block begun-HasHead (omega arith) (omega arith) (omega arith)
      first_is_made (omega arith)

-- A decoder that knows this block.
abbrev decode_block : Bytes → Option Block
decode_block [] = none
decode_block (b ∷ bytes) = if b == 1 then some first_block else none

produced_block_adopted_example :
    apply_synced_blocks_gated env decode_block begun
      ((1 ∷ []) ∷ [])
      true
      (some (get_active_witnesses begun))
    ≡ (put_block env first_block begun, ok 1)
produced_block_adopted_example =
    produced_block_adopted env decode_block begun begun (new 10) (7 ∷ []) (pos 9000) (pos 1000)
      (pos 1000) 0 genesis_block first_block true (1 ∷ []) toy-IsSound begun-HasHead (omega arith)
      first_is_made begun-HasHead.latest refl
