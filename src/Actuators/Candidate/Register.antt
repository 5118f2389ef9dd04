-- ===== src/Actuators/Candidate/Register.antt =====
-- `WitnessCreateActuator` of crates/actuators/src/witness.rs.
use tron_rs.Prelude.{Bytes, ℤ, pos, ltb_ℤ, Result, ok, ◌>>=◌, ◌>>◌, fail_if, true, not}
use tron_rs.State.World.{World, Witness, put_account, witness_exists, burn_trx}
use tron_rs.Actuators.{
  ActuatorError, invalid_address, balance_not_sufficient, owner_account_missing, account_not_exists,
  invalid_url, witness_has_existed, below_upgrade_cost, parse_address, need_account, Outcome, try,
  debit,
}
use tron_rs.Actuators
use tron_rs.Actuators.Candidate.{valid_url, put_witness, upgrade_cost}

pub record WitnessCreateContract : Type 0 where
  pub owner_address : Bytes
  pub url : Bytes

unfoldable pub validate : World → WitnessCreateContract → Result ActuatorError ℤ
unfolding parse_address valid_url need_account witness_exists upgrade_cost
validate w c = do
  owner ← parse_address c.owner_address invalid_address
  fail_if (not (valid_url c.url)) (Actuators.validate invalid_url)
  account ← need_account w owner (Actuators.validate account_not_exists)
  fail_if (witness_exists w owner) (Actuators.validate witness_has_existed)
  fail_if (ltb_ℤ account.balance (upgrade_cost w)) (Actuators.validate below_upgrade_cost)
  ok (upgrade_cost w)

unfoldable pub new_witness : (Bytes → Bytes) → Bytes → Bytes → Witness
new_witness text owner url = record {
  address = owner;
  vote_count = pos 0;
  url = text url;
  is_jobs = true;
}

-- The witness is stored before the owner's account is read and pays.
unfoldable pub execute : (Bytes → Bytes) → World → WitnessCreateContract → Outcome
unfolding parse_address upgrade_cost new_witness put_witness need_account debit put_account burn_trx
execute text w c = try w (parse_address c.owner_address invalid_address) λ owner.
    let cost = upgrade_cost w in
    let w₁ = put_witness (new_witness text owner c.url) w in
    try w₁ (need_account w₁ owner (Actuators.execute owner_account_missing)) λ account.
      try w₁ (debit account.balance cost balance_not_sufficient) λ balance.
        let account' = record account { is_witness = true; balance = balance } in
        (burn_trx cost (put_account owner account' w₁), ok cost)
