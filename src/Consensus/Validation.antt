-- ===== src/Consensus/Validation.antt =====
-- The module `validation` of crates/consensus/src/lib.rs: what a block must satisfy by itself, and
-- the gate for blocks from peers. An error keeps the numbers of the source's error and not the
-- hex texts.
pub mod Gate
use tron_rs.Prelude.Endian.{i64_from_be}
use tron_rs.Prelude.{
  ◌==◌, if◌then◌else◌, length, take, Bytes, bytes_eq, ℤ, pos, ltb_ℤ, eqb_ℤ, sub_i64, Result, ok,
  ◌>>=◌, ◌>>◌, fail_if, ok_or, ℕ, Bool, true, false, ◌&&◌, ◌||◌, not, List, [], ◌∷◌,
}
use tron_rs.Chain.{Block, BlockHeader, HeaderRaw, Env, tx_trie_root, recover_witness}

pub data BlockValidationError : Type 0 where
  missing_header tx_trie_root_mismatch witness_mismatch signer_not_active_witness :
      BlockValidationError
  bad_witness_signature : ℕ → BlockValidationError
  bad_parent_link : ℤ → ℤ → BlockValidationError

unfoldable pub check_link : ℤ → ℤ → Result BlockValidationError (Unit {0})
check_link got expected = fail_if (not (eqb_ℤ got expected)) (bad_parent_link got expected)

-- 2. The parent id carries number - 1 in its first 8 bytes.
unfoldable pub check_parent : HeaderRaw → Result BlockValidationError (Unit {0})
unfolding check_link
check_parent raw =
    if ltb_ℤ (pos 0) raw.number && (length raw.parent_hash == 32)
    then check_link (i64_from_be (take 8 raw.parent_hash)) (sub_i64 raw.number (pos 1))
    else ok tt

-- 3. The producer's signature.
unfoldable pub check_witness :
    Env → Block → BlockHeader → HeaderRaw → Bool → Result BlockValidationError (Unit {0})
check_witness env block header raw require_witness_signature =
    if (length header.witness_signature == 0) && not require_witness_signature then ok tt else do
      fail_if (not (length header.witness_signature == 65))
          (bad_witness_signature (length header.witness_signature))
      recovered ←
          ok_or (recover_witness env block)
            (bad_witness_signature (length header.witness_signature))
      fail_if (not (bytes_eq recovered raw.witness_address)) witness_mismatch

-- The checks on a block that has its header.
unfoldable pub check_block :
    Env → Block → BlockHeader → HeaderRaw → Bool → Result BlockValidationError (Unit {0})
unfolding check_parent check_witness
check_block env block header raw require_witness_signature = do
  fail_if (not (bytes_eq (tx_trie_root env block.transactions) raw.tx_trie_root))
      tx_trie_root_mismatch
  check_parent raw
  check_witness env block header raw require_witness_signature

unfoldable pub validate_block : Env → Block → Bool → Result BlockValidationError (Unit {0})
unfolding check_block
validate_block env block require_witness_signature = do
  header ← ok_or block.block_header missing_header
  raw ← ok_or header.raw_data missing_header
  check_block env block header raw require_witness_signature

-- `active_witnesses.iter().any(…)`
unfoldable pub is_active : List Bytes → Bytes → Bool
is_active [] producer = false
is_active (w ∷ ws) producer = bytes_eq w producer || is_active ws producer

unfoldable pub validate_block_intake :
    Env → Block → List Bytes → Result BlockValidationError (Unit {0})
unfolding validate_block is_active
validate_block_intake env block active_witnesses = do
  validate_block env block true
  producer ← ok_or (recover_witness env block) (bad_witness_signature 0)
  fail_if (not (is_active active_witnesses producer)) signer_not_active_witness
