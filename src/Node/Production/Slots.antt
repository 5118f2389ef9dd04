-- ===== src/Node/Production/Slots.antt =====
-- The arithmetic of the slots of crates/node/src/production.rs.
use tron_rs.Prelude.Endian.{to_bits, of_bits}
use tron_rs.Prelude.{
  pos, ◌+ℤ◌, int_laws, mul_i64, add_i64-in, mul_i64-in, mul_pos, ℕ, ◌+◌, ◌*◌, ◌^◌, ◌≤◌, ◌<◌, ◌≡◌,
  ◌∙◌, arith,
}
use tron_rs.Consensus.Schedule.{slot_of, block_interval_ms}
use tron_rs.Node.Production.{slot_time}

-- A time that is a whole number of intervals after the genesis block is in that slot.
pub slot_of-multiple : (g s : ℕ) → slot_of (g + s * 3000) g ≡ s
unfolding slot_of
slot_of-multiple g s = ground arith

pub slot_time-pos : (g s : ℕ) → g + s * 3000 < 2 ^ 63 → slot_time (pos g) s ≡ pos (g + s * 3000)
unfolding slot_time of_bits
slot_time-pos g s small =
    let product : mul_i64 (pos s) (pos block_interval_ms) ≡ pos (s * 3000) =
      mul_i64-in (pos s) (pos 3000) (rw (mul_pos s 3000) (omega arith, omega arith))
      ∙ mul_pos s 3000 in
    let sum : pos g +ℤ pos (s * 3000) ≡ pos (g + s * 3000) = omega int_laws in
    let bits : of_bits s ≡ pos s = ground arith in
    rw (bits, product)
      (add_i64-in (pos g) (pos (s * 3000)) (rw sum (omega arith, omega arith)) ∙ sum)

pub slot_of-le : (g n : ℕ) → g < n → g + slot_of n g * 3000 ≤ n
unfolding slot_of
slot_of-le g n later = ground arith

pub to_bits-small : (n : ℕ) → n < 2 ^ 63 → to_bits (pos n) ≡ n
unfolding to_bits
to_bits-small n small = ground arith
