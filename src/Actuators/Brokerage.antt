-- ===== src/Actuators/Brokerage.antt =====
-- crates/actuators/src/brokerage.rs: a witness sets the percentage of its rewards that it keeps.
pub mod Split
use tron_rs.Prelude.{Bytes, ℤ, pos, leb_ℤ, Result, ok, ◌>>=◌, ◌>>◌, fail_if, ◌&&◌, not}
use tron_rs.State.World.{World, change_delegation, put_brokerage, witness_exists}
use tron_rs.Actuators.{
  ActuatorError, Outcome, invalid_address, brokerage_out_of_range, not_a_witness, parse_address,
  require_feature, try,
}
use tron_rs.Actuators

-- `brokerage` is an i32.
pub record UpdateBrokerageContract : Type 0 where
  pub owner_address : Bytes
  pub brokerage : ℤ

unfoldable pub validate : World → UpdateBrokerageContract → Result ActuatorError ℤ
unfolding require_feature parse_address witness_exists
validate w c = do
  require_feature w change_delegation
  owner ← parse_address c.owner_address invalid_address
  fail_if (not (leb_ℤ (pos 0) c.brokerage && leb_ℤ c.brokerage (pos 100)))
      (Actuators.validate brokerage_out_of_range)
  fail_if (not (witness_exists w owner)) (Actuators.validate not_a_witness)
  ok (pos 0)

unfoldable pub execute : World → UpdateBrokerageContract → Outcome
unfolding parse_address put_brokerage
execute w c =
    try w (parse_address c.owner_address invalid_address)
      λ owner. (put_brokerage owner c.brokerage w, ok (pos 0))
