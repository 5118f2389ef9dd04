-- ===== src/Actuators/Candidate/Update.antt =====
-- `WitnessUpdateActuator` of crates/actuators/src/witness.rs.
use tron_rs.Prelude.{Bytes, ℤ, pos, Result, ok, ◌>>=◌, ◌>>◌, fail_if, ok_or, not}
use tron_rs.State.World.{World, account_exists, witness_exists}
use tron_rs.Actuators.{
  ActuatorError, invalid_address, invalid_url, account_does_not_exist, witness_does_not_exist,
  parse_address, Outcome, try,
}
use tron_rs.Actuators
use tron_rs.Actuators.Candidate.{valid_url, get_witness, put_witness}

pub record WitnessUpdateContract : Type 0 where
  pub owner_address : Bytes
  pub update_url : Bytes

unfoldable pub validate : World → WitnessUpdateContract → Result ActuatorError ℤ
unfolding parse_address account_exists valid_url witness_exists
validate w c = do
  owner ← parse_address c.owner_address invalid_address
  fail_if (not (account_exists w owner)) (Actuators.validate account_does_not_exist)
  fail_if (not (valid_url c.update_url)) (Actuators.validate invalid_url)
  fail_if (not (witness_exists w owner)) (Actuators.validate witness_does_not_exist)
  ok (pos 0)

unfoldable pub execute : (Bytes → Bytes) → World → WitnessUpdateContract → Outcome
unfolding parse_address get_witness put_witness
execute text w c = try w (parse_address c.owner_address invalid_address) λ owner.
    try w (get_witness w owner >>= λ found. ok_or found (Actuators.execute witness_does_not_exist))
      λ witness. (put_witness (record witness { url = text c.update_url }) w, ok (pos 0))
