-- ===== src/Actuators/Governance/Create.antt =====
-- `ProposalCreateActuator` of crates/actuators/src/proposal.rs.
use tron_rs.Prelude.{
  ◌==◌, length, Bytes, ℤ, pos, ◌+ℤ◌, checked, add_i64, Result, ok, ◌>>=◌, ◌>>◌, fail_if, ok_or, not,
  List, [], ◌∷◌,
}
use tron_rs.State.World.{
  World, Proposal, latest_timestamp, latest_proposal_num, account_exists, get_prop_i64,
  put_prop_i64, witness_exists,
}
use tron_rs.Actuators.{
  ActuatorError, invalid_address, long_overflow, account_not_exists, witness_not_exists,
  no_parameters, bad_parameter, state, parse_address, Outcome, try,
}
use tron_rs.Actuators
use tron_rs.Actuators.Governance.{
  pending, maintenance_time_interval_ms, is_allowed_param, put_proposal,
}

pub record ProposalCreateContract : Type 0 where
  pub owner_address : Bytes
  pub parameters : List (ℤ × ℤ)

-- Whether all ids are allowed, with the values ignored.
unfoldable pub check_parameters : List (ℤ × ℤ) → Result ActuatorError (Unit {0})
unfolding is_allowed_param
check_parameters [] = ok tt
check_parameters (p ∷ parameters) = do
  fail_if (not (is_allowed_param p.0)) (Actuators.validate bad_parameter)
  check_parameters parameters

unfoldable pub validate : World → ProposalCreateContract → Result ActuatorError ℤ
unfolding parse_address account_exists witness_exists check_parameters
validate w c = do
  owner ← parse_address c.owner_address invalid_address
  fail_if (not (account_exists w owner)) (Actuators.validate account_not_exists)
  fail_if (not (witness_exists w owner)) (Actuators.validate witness_not_exists)
  fail_if (length c.parameters == 0) (Actuators.validate no_parameters)
  check_parameters c.parameters
  ok (pos 0)

-- The new proposal, with the id after `latest`, at `now`.
unfoldable pub new_proposal : Bytes → List (ℤ × ℤ) → ℤ → ℤ → ℤ → Proposal
new_proposal owner parameters latest now expiration = record {
  proposal_id = add_i64 latest (pos 1);
  proposer_address = owner;
  parameters = parameters;
  expiration_time = expiration;
  create_time = now;
  approvals = [];
  state = pending;
}

unfoldable pub execute : World → ProposalCreateContract → Outcome
unfolding parse_address get_prop_i64 new_proposal put_proposal put_prop_i64
execute w c = try w (parse_address c.owner_address invalid_address) λ owner.
    let latest = get_prop_i64 w latest_proposal_num in
    let now = get_prop_i64 w latest_timestamp in
    try w (ok_or (checked (now +ℤ maintenance_time_interval_ms)) (Actuators.execute long_overflow))
      λ expiration.
        let p = new_proposal owner c.parameters latest now expiration in
        (put_prop_i64 latest_proposal_num p.proposal_id (put_proposal p w), ok (pos 0))
