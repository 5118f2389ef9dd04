-- ===== src/Consensus/Mempool/Admit/Sound.antt =====
-- Only checked transactions enter the pool: `admit_transaction` of crates/consensus/src/mempool.rs.
use tron_rs.Prelude.{
  Option-cases, length, Bytes, ℤ, checked, ok, err, ◌≤◌, ◌<◌, ◌≡◌, inl, inr, Bool, true, false,
  some, [], ◌∷◌, ◌++◌, arith,
}
use tron_rs.Chain.{Transaction, Raw, Env, tx_id}
use tron_rs.Consensus.Mempool.{Mempool, contains, add}
use tron_rs.Consensus.Mempool.Admit.Passes.{
  IsSignedByOwner, IsInWindow, HasReference, AreBytes, reference_bytes,
  check_signer-IsSignedByOwner, check_expiration-IsInWindow, verify_ref_block-HasReference,
  already_stored-not,
}
use tron_rs.Consensus.Mempool.Admit.{AdmitError, View, check_transaction, admit_transaction}

-- What an admitted transaction is: its size and its raw data, its signer, its expiration, its reference
-- block, and that it is new and accepted by the actuator.
pub record Passes (env : Env) (view : View) (tx : Transaction) (now : ℤ)
    (validate : Transaction → Bool) : Type 0 where
  pub raw : Raw
  pub has_raw : tx.raw_data ≡ some raw
  pub sized : length (env.codec.encode_tx tx) ≤ 524_288
  pub has_contract : 0 < length raw.contract
  pub signed : IsSignedByOwner env tx
  pub timely : IsInWindow raw now
  pub referenced : HasReference env view raw
  pub unstored : (t : Transaction) → ¬ (view.transaction (tx_id env tx) ≡ some (some t))
  pub accepted : validate tx ≡ true

check_transaction-Passes :
    (env : Env) (pool : Mempool) (view : View) (tx : Transaction) (now : ℤ)
    (validate : Transaction → Bool) (id : Bytes)
    → AreBytes (reference_bytes tx)
    → check_transaction env pool view tx now validate ≡ ok id
    → (id ≡ tx_id env tx) × (contains pool id ≡ false) × Passes env view tx now validate
unfolding check_transaction
check_transaction-Passes env pool view tx now validate id bytes h =
    elim (Option-cases tx.raw_data) [
      | inl bare ↦ absurd (ground arith)
      | inr (raw, e) ↦ (
        ground arith,
        ground arith,
        record {
          raw = raw;
          has_raw = e;
          sized = ground arith;
          has_contract = ground arith;
          signed = check_signer-IsSignedByOwner env tx (ground arith);
          timely = check_expiration-IsInWindow raw now (ground arith);
          referenced = verify_ref_block-HasReference env view raw (rw e at bytes) (ground arith);
          unstored = already_stored-not view (tx_id env tx) (ground arith);
          accepted = ground arith;
        },
      )
    ]

-- What an admission says of the checks and of the call of `add`.
admitted :
    (env : Env) (pool : Mempool) (view : View) (tx : Transaction) (now : ℤ)
    (validate : Transaction → Bool) (id : Bytes)
    → (admit_transaction env pool view tx now validate).1 ≡ ok id
    → (check_transaction env pool view tx now validate ≡ ok id)
      × (length pool.order < pool.capacity)
      × ((admit_transaction env pool view tx now validate).0 ≡ record pool {
        order = pool.order ++ (tx_id env tx, tx) ∷ [];
        seen = tx_id env tx ∷ pool.seen;
      })
unfolding admit_transaction add
admitted env pool view tx now validate id h = (ground arith, ground arith, ground arith)

-- A transaction whose reference bytes are bytes is admitted only if it is at most 512 KiB long, has a
-- contract, is signed, by the owner of its first contract where this names one, expires never or
-- after now and at most a day later, a sum of i64 that wraps, is neither pooled nor stored, the actuator accepts it, and its
-- reference, if it has one, is that of the last block up to the head whose number ends in the two
-- reference bytes; a reference is not looked up while the head is not above 0, nor where it is not of two
-- bytes. Then the transaction stands at the end of the pool, which had room, and the rest of the pool is
-- as before.
pub admit_transaction-ok :
    (env : Env) (pool : Mempool) (view : View) (tx : Transaction) (now : ℤ)
    (validate : Transaction → Bool) (id : Bytes)
    → AreBytes (reference_bytes tx)
    → (admit_transaction env pool view tx now validate).1 ≡ ok id
    → Passes env view tx now validate
      × (id ≡ tx_id env tx)
      × (contains pool id ≡ false)
      × (length pool.order < pool.capacity)
      × ((admit_transaction env pool view tx now validate).0
          ≡ record pool { order = pool.order ++ (id, tx) ∷ []; seen = id ∷ pool.seen })
admit_transaction-ok env pool view tx now validate id bytes h =
    let (checked, room, stored) = admitted env pool view tx now validate id h in
    let (is_id, fresh, passes) =
      check_transaction-Passes env pool view tx now validate id bytes checked in
    (passes, is_id, fresh, room, rw is_id stored)

-- A refused transaction leaves the pool as it was.
admit_transaction-err :
    (env : Env) (pool : Mempool) (view : View) (tx : Transaction) (now : ℤ)
    (validate : Transaction → Bool) (e : AdmitError)
    → (admit_transaction env pool view tx now validate).1 ≡ err e
    → (admit_transaction env pool view tx now validate).0 ≡ pool
unfolding admit_transaction add
admit_transaction-err env pool view tx now validate e h = ground arith
