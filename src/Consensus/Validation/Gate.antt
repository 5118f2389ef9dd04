-- ===== src/Consensus/Validation/Gate.antt =====
-- What a block that passes the gate of crates/consensus/src/lib.rs has.
use tron_rs.Prelude.Endian.{i64_from_be, bytes_eq_iff}
use tron_rs.Prelude.{
  ◌==◌, Bool-cases, Option-cases, length, take, Bytes, pos, ◌≤ℤ◌, ltb_ℤ, eqb_ℤ, eqb_ℤ_iff, sub_i64,
  ok, ◌≡◌, ◌≢◌, ◌⊎◌, inl, inr, true, some, List, arith,
}
use tron_rs.Chain.{Block, BlockHeader, HeaderRaw, Env, tx_trie_root, recover_witness}
use tron_rs.Consensus.Validation.{is_active, validate_block_intake}

-- A header whose root and producer are those of the block, and whose parent id, where it is one of 32
-- bytes and the number is above 0, begins with the number before.
pub record IsSealed (env : Env) (block : Block) (producer : Bytes) : Type 0 where
  pub header : BlockHeader
  pub raw : HeaderRaw
  pub has_header : block.block_header ≡ some header
  pub has_raw : header.raw_data ≡ some raw
  pub linked :
      (raw.number ≤ℤ pos 0)
      ⊎ ((length raw.parent_hash ≢ 32)
          ⊎ (i64_from_be (take 8 raw.parent_hash) ≡ sub_i64 raw.number (pos 1)))
  pub root : raw.tx_trie_root ≡ tx_trie_root env block.transactions
  pub signed : recover_witness env block ≡ some producer
  pub named : raw.witness_address ≡ producer

gate_header :
    (env : Env) (block : Block) (active : List Bytes)
    → validate_block_intake env block active ≡ ok tt
    → (header : BlockHeader) × (raw : HeaderRaw) × (block.block_header ≡ some header)
      × (header.raw_data ≡ some raw)
unfolding validate_block_intake
gate_header env block active h = elim (Option-cases block.block_header) [
  | inl absent ↦ absurd (ground arith)
  | inr (header, e) ↦ elim (Option-cases header.raw_data) [
    | inl bare ↦ absurd (ground arith)
    | inr (raw, r) ↦ (header, raw, e, r)
  ]
]

gate_producer :
    (env : Env) (block : Block) (active : List Bytes)
    → validate_block_intake env block active ≡ ok tt
    → (producer : Bytes) × (recover_witness env block ≡ some producer)
unfolding validate_block_intake
gate_producer env block active h = elim (Option-cases (recover_witness env block)) [
  | inl nobody ↦ absurd (ground arith)
  | inr found ↦ found
]

gate_linked :
    (env : Env) (block : Block) (header : BlockHeader) (raw : HeaderRaw) (active : List Bytes)
    → block.block_header ≡ some header
    → header.raw_data ≡ some raw
    → validate_block_intake env block active ≡ ok tt
    → (raw.number ≤ℤ pos 0)
      ⊎ ((length raw.parent_hash ≢ 32)
          ⊎ (i64_from_be (take 8 raw.parent_hash) ≡ sub_i64 raw.number (pos 1)))
unfolding validate_block_intake
gate_linked env block header raw active eh er h = elim (Bool-cases (ltb_ℤ (pos 0) raw.number)) [
  | inl above ↦ elim (Bool-cases (length raw.parent_hash == 32)) [
    | inl whole ↦
        let link : eqb_ℤ (i64_from_be (take 8 raw.parent_hash)) (sub_i64 raw.number (pos 1))
            ≡ true =
          ground arith in
        inr (
          inr (
            (eqb_ℤ_iff (i64_from_be (take 8 raw.parent_hash)) (sub_i64 raw.number (pos 1))).0 link))
    | inr short ↦ inr (inl (ground arith))
  ]
  | inr low ↦ inl (ground arith)
]

-- The gate lets a block through only if its header commits to its transactions, and the address
-- that its signature recovers to is the one in the header and an active witness.
gate_sound :
    (env : Env) (block : Block) (header : BlockHeader) (raw : HeaderRaw) (producer : Bytes)
    (active : List Bytes)
    → block.block_header ≡ some header
    → header.raw_data ≡ some raw
    → recover_witness env block ≡ some producer
    → validate_block_intake env block active ≡ ok tt
    → (raw.tx_trie_root ≡ tx_trie_root env block.transactions)
      × (raw.witness_address ≡ producer)
      × (is_active active producer ≡ true)
unfolding validate_block_intake
gate_sound env block header raw producer active eh er ep h = (
  ground (arith, bytes_eq_iff (tx_trie_root env block.transactions) raw.tx_trie_root),
  ground (arith, bytes_eq_iff producer raw.witness_address),
  ground arith,
)

-- A block passes the gate only if it has a header that commits to its transactions, a signature
-- that recovers to the witness address in the header, which is an active witness, and, where its number
-- is above 0 and its parent id has 32 bytes, a parent id that begins with the number before.
pub validate_block_intake_sound :
    (env : Env) (block : Block) (active : List Bytes)
    → validate_block_intake env block active ≡ ok tt
    → (producer : Bytes) × IsSealed env block producer × (is_active active producer ≡ true)
validate_block_intake_sound env block active h =
    let (header, raw, eh, er) = gate_header env block active h in
    let (producer, ep) = gate_producer env block active h in
    let (root, named, act) = gate_sound env block header raw producer active eh er ep h in
    (
      producer,
      record {
        header = header;
        raw = raw;
        has_header = eh;
        has_raw = er;
        linked = gate_linked env block header raw active eh er h;
        root = root;
        signed = ep;
        named = named;
      },
      act,
    )
