-- ===== src/Consensus/Schedule.antt =====
-- crates/consensus/src/lib.rs: slots, the maintenance rounds and the producer of a slot. Block
-- times and slots are u64 where the source has u64, and their sums wrap.
pub mod Laws
use tron_rs.Prelude.{
  leb, if◌then◌else◌, length, get_elem?, Bytes, ℤ, pos, quot_ℤ, leb_ℤ, add_i64, sub_i64, mul_i64, ℕ,
  ◌+◌, ◌-◌, ◌*◌, ◌/◌, ◌%◌, ◌^◌, Bool, Option, none, List, [], ◌∷◌,
}

abbrev pub block_interval_ms : ℕ
block_interval_ms = 3000

abbrev pub maintenance_period_ms : ℕ
maintenance_period_ms = 21_600_000

abbrev pub single_repeat : ℕ
single_repeat = 1

unfoldable pub slot_of : ℕ → ℕ → ℕ
slot_of block_time_ms genesis_time_ms =
    if leb block_time_ms genesis_time_ms
    then 0
    else (block_time_ms - genesis_time_ms) / block_interval_ms

pub next_maintenance_time : ℤ → ℤ → ℤ
next_maintenance_time current_maintenance_time block_time =
    let interval = pos maintenance_period_ms in
    let round = quot_ℤ (sub_i64 block_time current_maintenance_time) interval in
    add_i64 current_maintenance_time (mul_i64 (add_i64 round (pos 1)) interval)

pub need_maintenance : ℤ → ℤ → Bool
need_maintenance next_maintenance_time block_time = leb_ℤ next_maintenance_time block_time

unfoldable pub scheduled_witness : List Bytes → ℕ → ℕ → Option Bytes
scheduled_witness [] head_abs_slot slot = none
scheduled_witness (w ∷ ws) head_abs_slot slot =
    let current = (head_abs_slot + slot) % 2 ^ 64 in
    let n = length (w ∷ ws) in
    let idx = current % (n * single_repeat) / single_repeat in get_elem? (w ∷ ws) idx
