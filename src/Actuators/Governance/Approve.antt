-- ===== src/Actuators/Governance/Approve.antt =====
-- `ProposalApproveActuator` of crates/actuators/src/proposal.rs.
use tron_rs.Prelude.{
  if◌then◌else◌, Bytes, bytes_eq, ℤ, pos, Result, ok, ◌>>=◌, ◌>>◌, fail_if, Bool, false, ◌||◌, not,
  List, [], ◌∷◌, ◌++◌,
}
use tron_rs.State.World.{World, Proposal, account_exists, witness_exists}
use tron_rs.Actuators.{
  ActuatorError, invalid_address, account_not_exists, witness_not_exists, proposal_not_exists,
  approved_before, not_approved_before, parse_address, Outcome, try,
}
use tron_rs.Actuators
use tron_rs.Actuators.Governance.{put_proposal, need_proposal, known_proposal, check_open}

pub record ProposalApproveContract : Type 0 where
  pub owner_address : Bytes
  pub proposal_id : ℤ
  pub is_add_approval : Bool

-- `approvals.iter().any(|a| a == owner)`
unfoldable pub has_approved : Bytes → List Bytes → Bool
has_approved owner [] = false
has_approved owner (a ∷ approvals) = bytes_eq a owner || has_approved owner approvals

-- `approvals.retain(|a| a != owner)`
unfoldable pub retract : Bytes → List Bytes → List Bytes
retract owner [] = []
retract owner (a ∷ approvals) =
    let rest = retract owner approvals in if bytes_eq a owner then rest else a ∷ rest

-- An approval is added once, and only what was added is taken back.
unfoldable pub check_approval :
    ProposalApproveContract → Bytes → Proposal → Result ActuatorError (Unit {0})
unfolding has_approved
check_approval c owner p =
    let already = has_approved owner p.approvals in
    if c.is_add_approval
    then fail_if already (Actuators.validate approved_before)
    else fail_if (not already) (Actuators.validate not_approved_before)

unfoldable pub validate : World → ProposalApproveContract → Result ActuatorError ℤ
unfolding parse_address account_exists witness_exists known_proposal check_open check_approval
validate w c = do
  owner ← parse_address c.owner_address invalid_address
  fail_if (not (account_exists w owner)) (Actuators.validate account_not_exists)
  fail_if (not (witness_exists w owner)) (Actuators.validate witness_not_exists)
  p ← known_proposal w c.proposal_id
  check_open w p
  check_approval c owner p
  ok (pos 0)

unfoldable pub with_approval : ProposalApproveContract → Bytes → Proposal → Proposal
unfolding retract
with_approval c owner p = record p {
  approvals = if c.is_add_approval then p.approvals ++ (owner ∷ []) else retract owner p.approvals;
}

unfoldable pub execute : World → ProposalApproveContract → Outcome
unfolding parse_address need_proposal with_approval put_proposal
execute w c = try w (parse_address c.owner_address invalid_address) λ owner.
    try w (need_proposal w c.proposal_id (Actuators.execute proposal_not_exists))
      λ p. (put_proposal (with_approval c owner p) w, ok (pos 0))
