-- ===== src/Actuators/Brokerage/Split.antt =====
-- The percentage that crates/actuators/src/brokerage.rs sets is the one by which
-- crates/consensus/src/reward.rs splits a reward.
use tron_rs.Prelude.{
  if◌then◌else◌, Bytes, bytes_eq, ℤ, pos, pos_part, ◌≤ℤ◌, saturating, mul_pos, quot_pos,
  pos-pos_part, ok, ℕ, ◌*◌, ◌/◌, ◌^◌, ◌≤◌, ◌<◌, ◌≡◌, refl, arith,
}
use tron_rs.Prelude.Endian.{bytes_eq_refl}
use tron_rs.State.World.{World, get_brokerage}
use tron_rs.State.World.Laws.{get_brokerage-put_brokerage}
use tron_rs.Actuators.{invalid_address, parse_address}
use tron_rs.Actuators.Brokerage.{UpdateBrokerageContract, validate, execute}
use tron_rs.Consensus.Reward.{split_reward, clamp_percent}

accepted :
    (w : World) (c : UpdateBrokerageContract) (fee : ℤ)
    → validate w c ≡ ok fee
    → (parse_address c.owner_address invalid_address ≡ ok c.owner_address)
      × (pos 0 ≤ℤ c.brokerage)
      × (c.brokerage ≤ℤ pos 100)
unfolding validate parse_address
accepted w c fee h = ground arith

-- The percentage is used as it is.
split_in_range :
    (value percent : ℕ)
    → percent ≤ 100
    → 100 * value < 2 ^ 63
    → (split_reward (pos value) (pos percent)).0 ≡ pos (value * percent / 100)
unfolding split_reward
split_in_range value percent h room =
    let in_range : clamp_percent (pos percent) ≡ pos percent = ground arith in
    let fits : value * percent ≤ 100 * value = grind arith in
    let exact : saturating (pos (value * percent)) ≡ pos (value * percent) = ground arith in
    rw (in_range, mul_pos value percent, exact, quot_pos (value * percent) 100)

percent_le : (b : ℤ) → pos 0 ≤ℤ b → b ≤ℤ pos 100 → pos_part b ≤ 100
percent_le b low high = ground arith

-- A brokerage that is validated is set: it is the one that is read for its witness, any other
-- witness has the one it had, and of a reward that is not negative and whose hundredfold is below 2^63 the witness keeps that
-- percentage, rounded down.
pub brokerage_sets_split :
    (w : World) (c : UpdateBrokerageContract) (fee : ℤ) (value : ℕ)
    → validate w c ≡ ok fee
    → 100 * value < 2 ^ 63
    → ((execute w c).1 ≡ ok (pos 0))
      × ((a : Bytes)
          → get_brokerage (execute w c).0 a
            ≡ (if bytes_eq c.owner_address a then c.brokerage else get_brokerage w a))
      × ((split_reward (pos value) (get_brokerage (execute w c).0 c.owner_address)).0
          ≡ pos (value * pos_part c.brokerage / 100))
unfolding execute
brokerage_sets_split w c fee value valid_contract room =
    let (parsed, low, high) = accepted w c fee valid_contract in
    let reads = λ (a : Bytes).
      get_brokerage-put_brokerage c.owner_address a c.brokerage w
        (omega (arith, low), omega (arith, high)) in
    rw parsed (
      refl,
      reads,
      rw (reads c.owner_address, bytes_eq_refl c.owner_address, pos-pos_part c.brokerage low)
          (split_in_range value (pos_part c.brokerage) (percent_le c.brokerage low high) room),
    )
