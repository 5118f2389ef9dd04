-- ===== src/State/Blocks.antt =====
-- crates/state/src/blocks.rs: blocks by number and by id, transactions by id, and the head.
pub mod Head
use tron_rs.Prelude.{
  ◌==◌, if◌then◌else◌, length, Bytes, bytes_eq, ℤ, pos, leb_ℤ, eqb_ℤ, Result, ok, Option, none,
  some, List, [], ◌∷◌,
}
use tron_rs.Prelude.Endian.{i64_to_be, i64_from_be}
use tron_rs.Chain.{Block, Transaction, Env, tx_id, header_raw, block_id_of}
use tron_rs.State.World.{
  World, valid, latest_timestamp, StateError, read_cell, get_prop_i64, put_prop_i64,
  latest_block_number,
}

-- `block.block_header.as_ref().and_then(|h| h.raw_data.as_ref()).map(|r| r.number).unwrap_or(…)`
unfoldable pub number_or : ℤ → Block → ℤ
number_or absent block = elim (header_raw block) [ none ↦ absent | some raw ↦ raw.number ]

-- The block under its number.
unfoldable pub store_block : ℤ → Block → World → World
store_block number block w = record w {
  blocks = λ n. if eqb_ℤ number n then some (valid block) else w.blocks n;
}

-- The number under the block's id, if it has one.
unfoldable pub index_block : Env → ℤ → Block → World → World
unfolding block_id_of
index_block env number block w = elim (block_id_of env block) [
  | none ↦ w
  | some id ↦ record w {
    block_index = λ i. if bytes_eq id i then some (i64_to_be number) else w.block_index i;
  }
]

-- The head and its time, unless the block is older.
unfoldable pub advance_head : ℤ → Block → World → World
unfolding get_prop_i64 put_prop_i64
advance_head number block w =
    if leb_ℤ (get_prop_i64 w latest_block_number) number
    then (let w' = put_prop_i64 latest_block_number number w in
        elim (header_raw block) [
          | none ↦ w'
          | some raw ↦ put_prop_i64 latest_timestamp raw.timestamp w'
        ])
    else w

unfoldable pub put_block : Env → Block → World → World
unfolding number_or store_block index_block advance_head
put_block env block w =
    let number = number_or (pos 0) block in
    advance_head number block (index_block env number block (store_block number block w))

unfoldable pub get_block_by_num : World → ℤ → Result StateError (Option Block)
unfolding read_cell
get_block_by_num w number = read_cell (w.blocks number)

unfoldable pub put_transaction : Bytes → Transaction → World → World
put_transaction txid tx w = record w {
  transactions = λ i. if bytes_eq txid i then some (valid tx) else w.transactions i;
}

pub get_transaction : World → Bytes → Result StateError (Option Transaction)
unfolding read_cell
get_transaction w txid = read_cell (w.transactions txid)

unfoldable pub index_transactions : Env → List Transaction → World → World
unfolding tx_id put_transaction
index_transactions env [] w = w
index_transactions env (tx ∷ txs) w =
    index_transactions env txs (put_transaction (tx_id env tx) tx w)

unfoldable pub index_block_transactions : Env → Block → World → World
unfolding index_transactions
index_block_transactions env block w = index_transactions env block.transactions w

-- Through the index; an entry that is not of 8 bytes is none.
unfoldable pub get_block_by_id : World → Bytes → Result StateError (Option Block)
unfolding get_block_by_num
get_block_by_id w id = elim (w.block_index id) [
  | none ↦ ok none
  | some bytes ↦ if length bytes == 8 then get_block_by_num w (i64_from_be bytes) else ok none
]

unfoldable pub get_now_block : World → Result StateError (Option Block)
unfolding get_block_by_num get_prop_i64
get_now_block w = get_block_by_num w (get_prop_i64 w latest_block_number)
