-- ===== src/Consensus/Producer.antt =====
-- crates/consensus/src/producer.rs: assembling and signing a block on its parent.
pub mod Accepts
use tron_rs.Prelude.{Bytes, ℤ, pos, add_i64, ℕ, ◌+◌, none, some, List, [], ◌∷◌, ◌++◌}
use tron_rs.Chain.{
  Transaction, Block, HeaderRaw, Env, header_raw, raw_hash, tx_trie_root, block_id_of,
}
use tron_rs.Chain.Merkle.{zero_hash}
use tron_rs.Consensus.Mempool.{Mempool, peek}

-- `parent_raw.map(|r| r.number).unwrap_or(0)`
unfoldable pub parent_number : Block → ℤ
parent_number parent = elim (header_raw parent) [ none ↦ pos 0 | some raw ↦ raw.number ]

-- `block_id_of(parent).unwrap_or(vec![0u8; 32])`
unfoldable pub parent_id : Env → Block → Bytes
parent_id env parent = elim (block_id_of env parent) [ none ↦ zero_hash | some id ↦ id ]

unfoldable pub draft_header : Env → Block → Bytes → ℤ → List Transaction → ℤ → HeaderRaw
unfolding parent_number parent_id
draft_header env parent witness_key timestamp transactions version = record {
  timestamp = timestamp;
  tx_trie_root = tx_trie_root env transactions;
  parent_hash = parent_id env parent;
  number = add_i64 (parent_number parent) (pos 1);
  witness_address = env.crypto.address_from_public_key (env.crypto.public_key witness_key);
  version = version;
}

-- `r‖s`, then 27 plus the recovery id; `u8` addition.
unfoldable pub sign_header : Env → Bytes → HeaderRaw → Bytes
sign_header env witness_key raw =
    let sig = env.crypto.sign_digest witness_key (raw_hash env raw) in sig.0 ++ (27 + sig.1) ∷ []

unfoldable pub produce_block : Env → Block → Bytes → ℤ → List Transaction → ℤ → Block
unfolding draft_header sign_header
produce_block env parent witness_key timestamp transactions version =
    let raw = draft_header env parent witness_key timestamp transactions version in
    record {
      transactions = transactions;
      block_header =
          some
            (record { raw_data = some raw; witness_signature = sign_header env witness_key raw });
    }

unfoldable pub produce_from_pool : Env → Block → Bytes → ℤ → Mempool → ℕ → ℤ → Block
unfolding produce_block
produce_from_pool env parent witness_key timestamp pool max_txs version =
    produce_block env parent witness_key timestamp (peek pool max_txs) version
