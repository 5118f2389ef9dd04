-- ===== src/Consensus/Mempool/Admit.antt =====
-- `verify_ref_block` and `admit_transaction` of crates/consensus/src/mempool.rs. What they read of
-- the world state is a view of it, where `none` is a state error; the actuator check is an
-- argument, as in the source.
pub mod Passes
pub mod Sound
use tron_rs.Prelude.{
  ltb, leb, if◌then◌else◌, length, take, drop, Bytes, bytes_eq, ℤ, pos, pos_part, sub_ℕ, ltb_ℤ,
  leb_ℤ, eqb_ℤ, add_i64, Result, ok, err, ◌>>=◌, ◌>>◌, fail_if, ok_or, ℕ, ◌+◌, ◌-◌, ◌*◌, ◌%◌, Bool,
  true, false, not, Option, none, some, [], ◌∷◌,
}
use tron_rs.Chain.{
  Transaction, Raw, Block, Env, tx_id, block_id_of, recover_tx_signer, tx_owner_address,
}
use tron_rs.Consensus.Mempool.{Mempool, contains, add}

pub data AdmitError : Type 0 where
  too_large : ℕ → AdmitError
  no_raw_data no_contract bad_signature : AdmitError
  expired too_far_in_future : ℤ → ℤ → AdmitError
  ref_block_mismatch duplicate already_included invalid pool_full : AdmitError

-- `get_prop_i64(LATEST_BLOCK_NUMBER)`, `get_block_by_num` and `get_transaction`.
pub record View : Type 0 where
  pub head : Option ℤ
  pub block_by_num : ℤ → Option (Option Block)
  pub transaction : Bytes → Option (Option Transaction)

abbrev pub max_tx_size : ℕ
max_tx_size = 512 * 1024

abbrev pub max_future_expiration_ms : ℤ
max_future_expiration_ms = pos 86_400_000

-- `head - (head - ref16).rem_euclid(0x1_0000)` for a positive head: the largest number up to the
-- head whose low 16 bits are `ref16`.
unfoldable pub candidate : ℕ → ℕ → ℤ
candidate head ref16 = sub_ℕ head ((head + 0x1_0000 - ref16) % 0x1_0000)

-- `id.0.get(8..16) == Some(ref_block_hash)`
unfoldable pub matches_ref : Option Bytes → Bytes → Bool
matches_ref none hash = false
matches_ref (some id) hash = bytes_eq (take 8 (drop 8 id)) hash

unfoldable pub ref_ok : Env → Option (Option Block) → Bytes → Bool
unfolding matches_ref
ref_ok env none hash = false
ref_ok env (some none) hash = false
ref_ok env (some (some block)) hash = matches_ref (block_id_of env block) hash

unfoldable pub verify_at : Env → View → Raw → ℤ → Result AdmitError (Unit {0})
unfolding ref_ok candidate
verify_at env view raw head = elim raw.ref_block_bytes [
  | b₀ ∷ b₁ ∷ [] ↦
      fail_if
        (not (
          ref_ok env (view.block_by_num (candidate (pos_part head) (b₀ * 256 + b₁)))
            raw.ref_block_hash))
        ref_block_mismatch
  | _ ↦ ok tt
]

unfoldable pub verify_ref_block : Env → View → Raw → Result AdmitError (Unit {0})
unfolding verify_at
verify_ref_block env view raw = if bytes_eq raw.ref_block_hash [] then ok tt else do
  head ← ok_or view.head ref_block_mismatch
  if leb_ℤ head (pos 0) then ok tt else verify_at env view raw head

-- Step 3: the signer is the owner, where the contract names one.
unfoldable pub check_signer : Env → Transaction → Result AdmitError (Unit {0})
check_signer env tx = do
  signer ← ok_or (recover_tx_signer env tx) bad_signature
  elim (tx_owner_address tx) [
    | none ↦ ok tt
    | some owner ↦ fail_if (not (bytes_eq signer owner)) bad_signature
  ]

-- Step 4: the expiration window.
unfoldable pub check_expiration : Raw → ℤ → Result AdmitError (Unit {0})
check_expiration raw now = if eqb_ℤ raw.expiration (pos 0) then ok tt else do
  fail_if (leb_ℤ raw.expiration now) (expired raw.expiration now)
  fail_if (ltb_ℤ (add_i64 now max_future_expiration_ms) raw.expiration)
      (too_far_in_future raw.expiration now)

-- `state.get_transaction(id).ok().flatten().is_some()`
unfoldable pub already_stored : View → Bytes → Bool
already_stored view id = elim (view.transaction id) [
  | none ↦ false
  | some found ↦ elim found [ none ↦ false | some _ ↦ true ]
]

-- Steps 1 to 7; the answer is the transaction's id.
unfoldable pub check_transaction :
    Env → Mempool → View → Transaction → ℤ → (Transaction → Bool) → Result AdmitError Bytes
unfolding verify_ref_block check_signer check_expiration already_stored
check_transaction env pool view tx now validate = do
  let size = length (env.codec.encode_tx tx)
  fail_if (ltb max_tx_size size) (too_large size)
  raw ← ok_or tx.raw_data no_raw_data
  fail_if (leb (length raw.contract) 0) no_contract
  check_signer env tx
  check_expiration raw now
  verify_ref_block env view raw
  let id = tx_id env tx
  fail_if (contains pool id) duplicate
  fail_if (already_stored view id) already_included
  fail_if (not (validate tx)) invalid
  ok id

-- The pool after the call and the result.
unfoldable pub admit_transaction :
    Env
    → Mempool
    → View
    → Transaction
    → ℤ
    → (Transaction → Bool)
    → Mempool × Result AdmitError Bytes
admit_transaction env pool view tx now validate =
    elim (check_transaction env pool view tx now validate) [
      | err e ↦ (pool, err e)
      | ok id ↦
          let (pool', added) = add env pool tx in
          if added then (pool', ok id) else (pool', err pool_full)
    ]
