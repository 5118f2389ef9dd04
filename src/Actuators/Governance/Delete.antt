-- ===== src/Actuators/Governance/Delete.antt =====
-- `ProposalDeleteActuator` of crates/actuators/src/proposal.rs.
use tron_rs.Prelude.{Bytes, bytes_eq, ℤ, pos, Result, ok, ◌>>=◌, ◌>>◌, fail_if, not}
use tron_rs.State.World.{World, account_exists}
use tron_rs.Actuators.{
  ActuatorError, invalid_address, account_not_exists, proposal_not_exists, not_proposed_by_owner,
  state, parse_address, Outcome, try,
}
use tron_rs.Actuators
use tron_rs.Actuators.Governance.{
  cancelled, put_proposal, need_proposal, known_proposal, check_open,
}

pub record ProposalDeleteContract : Type 0 where
  pub owner_address : Bytes
  pub proposal_id : ℤ

unfoldable pub validate : World → ProposalDeleteContract → Result ActuatorError ℤ
unfolding parse_address account_exists known_proposal check_open
validate w c = do
  owner ← parse_address c.owner_address invalid_address
  fail_if (not (account_exists w owner)) (Actuators.validate account_not_exists)
  p ← known_proposal w c.proposal_id
  fail_if (not (bytes_eq p.proposer_address owner)) (Actuators.validate not_proposed_by_owner)
  check_open w p
  ok (pos 0)

unfoldable pub execute : World → ProposalDeleteContract → Outcome
unfolding need_proposal put_proposal
execute w c =
    try w (need_proposal w c.proposal_id (Actuators.execute proposal_not_exists))
      λ p. (put_proposal (record p { state = cancelled }) w, ok (pos 0))
