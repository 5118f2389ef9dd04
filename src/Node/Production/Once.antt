-- ===== src/Node/Production/Once.antt =====
-- What crates/node/src/production.rs makes of a time whose slot has its block.
use tron_rs.Prelude.{
  Option-cases, Bytes, ℤ, pos, leb_ℤ, add_i64, ℕ, suc, ◌+◌, ◌-◌, ◌*◌, ◌^◌, ◌≤◌, ◌<◌, ◌≡◌, refl, sym,
  ap, ◌∙◌, inl, inr, false, none, some, arith,
}
use tron_rs.Chain.{Block, Env}
use tron_rs.State.World.{World}
use tron_rs.Consensus.Schedule.{slot_of, scheduled_witness}
use tron_rs.Consensus.Mempool.{Mempool}
use tron_rs.Consensus.Producer.{produce_from_pool, parent_number}
use tron_rs.Actuators.Maintenance.{get_active_witnesses}
use tron_rs.Node.Sync.Accepts.{add_i64-suc}
use tron_rs.Node.Production.{
  header_ts_num, try_produce, apply_produced, produce_at, slot_at, slot_time, max_block_txs,
  block_version,
}
use tron_rs.Node.Production.Slots.{to_bits-small, slot_of-multiple, slot_time-pos, slot_of-le}
use tron_rs.Node.Production.Head.{
  HasHead, chain_times-HasHead, parent_number-numbered, header_ts_num-produced,
  apply_produced-HasHead,
}

pub produce_at-some :
    (env : Env) (w : World) (pool : Mempool) (key : Bytes) (now_ms genesis_ts head_ts : ℤ)
    (head block : Block)
    → produce_at env w pool key now_ms head genesis_ts head_ts ≡ some block
    → (leb_ℤ now_ms genesis_ts ≡ false)
      × (block
          ≡ produce_from_pool env head key
              (slot_time genesis_ts (slot_at now_ms genesis_ts))
              pool
              max_block_txs
              block_version)
unfolding produce_at
produce_at-some env w pool key now_ms genesis_ts head_ts head block h =
    let head_slot = slot_at head_ts genesis_ts in
    let slot = slot_at now_ms genesis_ts - head_slot in
    elim (Option-cases (scheduled_witness (get_active_witnesses w) head_slot slot)) [
      | inl nobody ↦ absurd (ground arith)
      | inr (scheduled, e) ↦ (ground arith, ground arith)
    ]

produce_at-covered :
    (env : Env) (w : World) (pool : Mempool) (key : Bytes) (now_ms genesis_ts head_ts : ℤ)
    (head : Block)
    → slot_at now_ms genesis_ts ≤ slot_at head_ts genesis_ts
    → produce_at env w pool key now_ms head genesis_ts head_ts ≡ none
unfolding produce_at
produce_at-covered env w pool key now_ms genesis_ts head_ts head covered = ground arith

pub try_produce-at :
    (env : Env) (w : World) (pool : Mempool) (key : Bytes) (now_ms genesis_ts head_ts : ℤ) (h : ℕ)
    (head : Block)
    → HasHead w genesis_ts h head head_ts
    → try_produce env w pool key now_ms ≡ produce_at env w pool key now_ms head genesis_ts head_ts
unfolding try_produce
try_produce-at env w pool key now_ms genesis_ts head_ts h head c =
    rw (chain_times-HasHead w genesis_ts head_ts h head c, try_produce) refl

-- No second block for a slot. For a head that is stored with its number and time, a genesis time that is
-- not negative, and the clock and the next number below 2^63: a block that is produced and applied is the
-- new head, with the next number and the time at which the clock's slot begins; after that nothing is
-- produced, with any pool and key, while the clock's slot is no later one.
pub produced_once :
    (env : Env) (w : World) (pool pool' : Mempool) (key key' : Bytes) (g n n' h : ℕ) (head_ts : ℤ)
    (head block : Block)
    → HasHead w (pos g) h head head_ts
    → suc h < 2 ^ 63
    → n < 2 ^ 63
    → n' < 2 ^ 63
    → try_produce env w pool key (pos n) ≡ some block
    → slot_of n' g ≤ slot_of n g
    → HasHead
        (apply_produced env w pool block).0.0
        (pos g)
        (suc h)
        block
        (pos (g + slot_of n g * 3000))
      × (try_produce env (apply_produced env w pool block).0.0 pool' key' (pos n') ≡ none)
produced_once env w pool pool' key key' g n n' h head_ts head block c room small small' made
      covered =
    let (newer, same) =
      produce_at-some env w pool key (pos n) (pos g) head_ts head block
        (sym (try_produce-at env w pool key (pos n) (pos g) head_ts h head c) ∙ made) in
    let later : g < n = ground arith in
    let le = slot_of-le g n later in
    let time = slot_time (pos g) (slot_at (pos n) (pos g)) in
    let number : add_i64 (parent_number head) (pos 1) ≡ pos (suc h) =
      rw (parent_number-numbered head head_ts (pos h) c.numbered) (add_i64-suc h room) in
    let slot : slot_at (pos n) (pos g) ≡ slot_of n g =
      rw (to_bits-small n small, to_bits-small g (omega arith)) refl in
    let stamp : time ≡ pos (g + slot_of n g * 3000) =
      rw slot (slot_time-pos g (slot_of n g) (omega arith)) in
    let numbered : header_ts_num block ≡ some (pos (g + slot_of n g * 3000), pos (suc h)) =
      ap header_ts_num same
      ∙ header_ts_num-produced env head key time pool max_block_txs block_version
      ∙ rw (stamp, number) refl in
    let c' =
      apply_produced-HasHead env w pool (pos g) head_ts (pos (g + slot_of n g * 3000)) h head block
        c room numbered in
    (
      c',
      try_produce-at env _ pool' key' (pos n') (pos g) _ (suc h) block c'
          ∙ produce_at-covered env _ pool' key' (pos n') (pos g) _ block (
              rw
                (
                  to_bits-small n' small',
                  to_bits-small g (omega arith),
                  to_bits-small (g + slot_of n g * 3000) (omega arith),
                  slot_of-multiple g (slot_of n g),
                )
                covered),
    )
