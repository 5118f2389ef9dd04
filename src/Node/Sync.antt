-- ===== src/Node/Sync.antt =====
-- crates/node/src/sync.rs: blocks from a peer are decoded, validated and stored one after the other, until
-- one of them is refused. The decoding of a block is the prost crate's: a parameter.
pub mod Accepts
pub mod Linked
use tron_rs.Prelude.{
  ◌==◌, if◌then◌else◌, length, Bytes, ℤ, pos, negsuc, eqb_ℤ, add_i64, Result, ok, err, ◌>>=◌, ◌>>◌,
  fail_if, ok_or, ℕ, suc, Bool, not, Option, none, some, List, [], ◌∷◌,
}
use tron_rs.Chain.{Block, Env}
use tron_rs.State.World.{World, get_prop_i64, latest_block_number}
use tron_rs.State.Blocks.{put_block, number_or}
use tron_rs.Consensus.Validation.{BlockValidationError, validate_block, validate_block_intake}
use tron_rs.Actuators.Maintenance.{get_active_witnesses}

pub data SyncError : Type 0 where
  undecodable : SyncError
  invalid : BlockValidationError → SyncError
  out_of_order : ℤ → ℤ → SyncError

-- `map_err(SyncError::Invalid)`
abbrev pub or_invalid : Result BlockValidationError (Unit {0}) → Result SyncError (Unit {0})
or_invalid (ok u) = ok u
or_invalid (err e) = err (invalid e)

-- The gate, where the active witnesses are known.
unfoldable pub gate : Env → Block → Bool → Option (List Bytes) → Result SyncError (Unit {0})
unfolding validate_block validate_block_intake
gate env block require_sig none = or_invalid (validate_block env block require_sig)
gate env block require_sig (some ws) = or_invalid (validate_block_intake env block ws)

-- The block, if it may be stored next.
unfoldable pub accept_block :
    Env
    → (Bytes → Option Block)
    → World
    → Bool
    → Option (List Bytes)
    → Bytes
    → Result SyncError Block
unfolding gate number_or
accept_block env decode_block w require_sig active bytes = do
  block ← ok_or (decode_block bytes) undecodable
  gate env block require_sig active
  let expected = add_i64 (get_prop_i64 w latest_block_number) (pos 1)
  let num = number_or (negsuc 0) block
  fail_if (not (eqb_ℤ num expected)) (out_of_order expected num)
  ok block

-- With so many blocks applied already.
unfoldable pub apply_from :
    Env
    → (Bytes → Option Block)
    → Bool
    → Option (List Bytes)
    → World
    → ℕ
    → List Bytes
    → World × Result SyncError ℕ
unfolding accept_block put_block
apply_from env decode_block require_sig active w applied [] = (w, ok applied)
apply_from env decode_block require_sig active w applied (bytes ∷ blocks) =
    elim (accept_block env decode_block w require_sig active bytes) [
      | err e ↦ (w, err e)
      | ok block ↦
          apply_from env decode_block require_sig active (put_block env block w) (suc applied)
            blocks
    ]

unfoldable pub apply_synced_blocks_gated :
    Env
    → (Bytes → Option Block)
    → World
    → List Bytes
    → Bool
    → Option (List Bytes)
    → World × Result SyncError ℕ
unfolding apply_from
apply_synced_blocks_gated env decode_block w blocks require_sig active =
    apply_from env decode_block require_sig active w 0 blocks

pub apply_synced_blocks :
    Env → (Bytes → Option Block) → World → List Bytes → Bool → World × Result SyncError ℕ
unfolding apply_synced_blocks_gated
apply_synced_blocks env decode_block w blocks require_sig =
    apply_synced_blocks_gated env decode_block w blocks require_sig none

-- The end of `sync_from_best_peer`, with the blocks that were fetched.
unfoldable pub apply_fetched :
    Env → (Bytes → Option Block) → World → List Bytes → Bool → World × Result SyncError ℕ
unfolding apply_synced_blocks_gated get_active_witnesses
apply_fetched env decode_block w blocks require_sig =
    let witnesses = get_active_witnesses w in
    apply_synced_blocks_gated env decode_block w blocks require_sig
      (if length witnesses == 0 then none else some witnesses)
