-- ===== src/Node/Production.antt =====
-- crates/node/src/production.rs: whether the node produces a block at a time, and what it does with a
-- block that it has produced. The time of the clock is an argument.
pub mod Slots
pub mod Head
pub mod Once
pub mod Adopted
use tron_rs.Prelude.{
  leb, if◌then◌else◌, Bytes, bytes_eq, ℤ, pos, leb_ℤ, add_i64, mul_i64, Result, ok, err, ℕ, ◌-◌,
  not, Option, none, some,
}
use tron_rs.Prelude.Endian.{to_bits, of_bits}
use tron_rs.Chain.{Block, Env, header_raw}
use tron_rs.State.World.{World, StateError}
use tron_rs.Consensus.Schedule.{slot_of, scheduled_witness, block_interval_ms}
use tron_rs.Consensus.Producer.{produce_from_pool}
use tron_rs.Consensus.Mempool.{Mempool, evict_included}
use tron_rs.State.Blocks.{put_block, index_block_transactions, get_now_block, get_block_by_num}
use tron_rs.Actuators.Maintenance.{get_active_witnesses}

abbrev pub max_block_txs : ℕ
max_block_txs = 1000

abbrev pub block_version : ℤ
block_version = pos 30

unfoldable pub header_ts_num : Block → Option (ℤ × ℤ)
header_ts_num block = elim (header_raw block) [
  | none ↦ none
  | some raw ↦ some (raw.timestamp, raw.number)
]

-- `.ok()??`
abbrev pub stored : {A : Type 0} → Result StateError (Option A) → Option A
stored (err e) = none
stored (ok found) = found

-- The head, the time of the genesis block and that of the head.
unfoldable pub chain_times : World → Option (Block × ℤ × ℤ)
unfolding get_now_block get_block_by_num header_ts_num
chain_times w = elim (stored (get_now_block w)) [
  | none ↦ none
  | some head ↦ elim (stored (get_block_by_num w (pos 0))) [
    | none ↦ none
    | some genesis ↦ elim (header_ts_num genesis) [
      | none ↦ none
      | some (genesis_ts, m) ↦ elim (header_ts_num head) [
        | none ↦ none
        | some (head_ts, n) ↦ some (head, genesis_ts, head_ts)
      ]
    ]
  ]
]

-- `slot_of(time as u64, genesis_ts as u64)`
abbrev pub slot_at : ℤ → ℤ → ℕ
slot_at time genesis_ts = slot_of (to_bits time) (to_bits genesis_ts)

-- The slot's time: a multiple of the interval after the genesis block.
unfoldable pub slot_time : ℤ → ℕ → ℤ
slot_time genesis_ts slot = add_i64 genesis_ts (mul_i64 (of_bits slot) (pos block_interval_ms))

unfoldable pub produce_at : Env → World → Mempool → Bytes → ℤ → Block → ℤ → ℤ → Option Block
unfolding slot_time get_active_witnesses produce_from_pool
produce_at env w pool witness_key now_ms head genesis_ts head_ts =
    let now_slot = slot_at now_ms genesis_ts in
    let head_slot = slot_at head_ts genesis_ts in
    let our = env.crypto.address_from_public_key (env.crypto.public_key witness_key) in
    if leb_ℤ now_ms genesis_ts
    then none
    else if leb now_slot head_slot
    then none
    else elim (scheduled_witness (get_active_witnesses w) head_slot (now_slot - head_slot)) [
      | none ↦ none
      | some scheduled ↦
          if not (bytes_eq scheduled our)
          then none
          else some (
              produce_from_pool env head witness_key (slot_time genesis_ts now_slot) pool
                max_block_txs block_version)
    ]

unfoldable pub try_produce : Env → World → Mempool → Bytes → ℤ → Option Block
unfolding chain_times produce_at
try_produce env w pool witness_key now_ms = elim (chain_times w) [
  | none ↦ none
  | some (head, genesis_ts, head_ts) ↦
      produce_at env w pool witness_key now_ms head genesis_ts head_ts
]

-- The state and the pool after the call, and the block's number.
unfoldable pub apply_produced : Env → World → Mempool → Block → (World × Mempool) × Option ℤ
unfolding put_block index_block_transactions evict_included header_ts_num
apply_produced env w pool block = (
  (index_block_transactions env block (put_block env block w), evict_included env pool block),
  elim (header_ts_num block) [ none ↦ none | some (time, number) ↦ some number ],
)
