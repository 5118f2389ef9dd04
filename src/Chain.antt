-- ===== src/Chain.antt =====
-- crates/chain/src/lib.rs: blocks and transactions, their ids, the merkle root of a block's
-- transactions, and the signers. The messages are those of crates/proto/protos/core/Tron.proto,
-- with the fields that the program reads. Their protobuf encoding is the prost crate's: a
-- parameter, beside the cryptography.
pub mod Merkle
pub mod Binding
pub mod Owner
use tron_rs.Prelude.Endian.{i64_to_be}
use tron_rs.Prelude.{
  ◌==◌, if◌then◌else◌, length, drop, Bytes, ℤ, Option, none, some, List, [], ◌∷◌, ◌++◌, map,
}
use tron_rs.Crypto.{Crypto, recover_address}
use tron_rs.Chain.Owner.{owner_field}
use tron_rs.Chain.Merkle.{merkle_root, zero_hash}

-- `transaction::Raw`; a contract is the value of its packed parameter, if it has one.
pub record Raw : Type 0 where
  pub ref_block_bytes : Bytes
  pub ref_block_hash : Bytes
  pub expiration : ℤ
  pub contract : List (Option Bytes)
  pub timestamp : ℤ

pub record Transaction : Type 0 where
  pub raw_data : Option Raw
  pub signature : List Bytes

-- `block_header::Raw`
pub record HeaderRaw : Type 0 where
  pub timestamp : ℤ
  pub tx_trie_root : Bytes
  pub parent_hash : Bytes
  pub number : ℤ
  pub witness_address : Bytes
  pub version : ℤ

pub record BlockHeader : Type 0 where
  pub raw_data : Option HeaderRaw
  pub witness_signature : Bytes

pub record Block : Type 0 where
  pub transactions : List Transaction
  pub block_header : Option BlockHeader

-- prost's `encode_to_vec` of the three messages that are hashed.
pub record Codec : Type 0 where
  pub encode_raw : Raw → Bytes
  pub encode_tx : Transaction → Bytes
  pub encode_header : HeaderRaw → Bytes

-- The calls into other crates that the functions below take.
pub record Env : Type 0 where
  pub crypto : Crypto
  pub codec : Codec

unfoldable pub tx_id : Env → Transaction → Bytes
tx_id env tx = elim tx.raw_data [
  | none ↦ zero_hash
  | some raw ↦ env.crypto.sha256 (env.codec.encode_raw raw)
]

unfoldable pub tx_merkle_leaf : Env → Transaction → Bytes
tx_merkle_leaf env tx = env.crypto.sha256 (env.codec.encode_tx tx)

unfoldable pub tx_trie_root : Env → List Transaction → Bytes
tx_trie_root env transactions =
    merkle_root env.crypto.sha256 (map (tx_merkle_leaf env) transactions)

-- `block.block_header.as_ref()?.raw_data.as_ref()?`
abbrev pub header_raw : Block → Option HeaderRaw
header_raw block = elim block.block_header [ none ↦ none | some header ↦ header.raw_data ]

unfoldable pub raw_hash : Env → HeaderRaw → Bytes
raw_hash env raw = env.crypto.sha256 (env.codec.encode_header raw)

unfoldable pub block_hash : Env → Block → Option Bytes
unfolding raw_hash
block_hash env block = elim (header_raw block) [ none ↦ none | some raw ↦ some (raw_hash env raw) ]

-- The number in 8 bytes, then the hash from byte 8.
unfoldable pub block_id : ℤ → Bytes → Bytes
block_id num hash = i64_to_be num ++ drop 8 hash

unfoldable pub block_id_of : Env → Block → Option Bytes
unfolding block_id raw_hash
block_id_of env block = elim (header_raw block) [
  | none ↦ none
  | some raw ↦ some (block_id raw.number (raw_hash env raw))
]

unfoldable pub recover_witness : Env → Block → Option Bytes
unfolding raw_hash
recover_witness env block = elim block.block_header [
  | none ↦ none
  | some header ↦ elim header.raw_data [
    | none ↦ none
    | some raw ↦
        if length header.witness_signature == 65
        then recover_address env.crypto (raw_hash env raw) header.witness_signature
        else none
  ]
]

unfoldable pub recover_tx_signer : Env → Transaction → Option Bytes
unfolding tx_id
recover_tx_signer env tx = elim tx.signature [
  | [] ↦ none
  | sig ∷ _ ↦ if length sig == 65 then recover_address env.crypto (tx_id env tx) sig else none
]

-- `tx_owner_address`: of the transaction's first contract.
unfoldable pub tx_owner_address : Transaction → Option Bytes
unfolding owner_field
tx_owner_address tx = elim tx.raw_data [
  | none ↦ none
  | some raw ↦ elim raw.contract [
    | [] ↦ none
    | parameter ∷ _ ↦ elim parameter [ none ↦ none | some value ↦ owner_field value ]
  ]
]
