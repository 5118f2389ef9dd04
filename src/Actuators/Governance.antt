-- ===== src/Actuators/Governance.antt =====
-- crates/actuators/src/proposal.rs: witnesses propose, approve and withdraw changes of the chain's
-- parameters. A proposal is stored under its id, and the last id that was given out is a property.
pub mod Create
pub mod Approve
pub mod Delete
pub mod Approvals
pub mod Keeps
pub mod Fresh
pub mod Checked
pub mod Executed
pub mod Steps
pub mod Undo
use tron_rs.Prelude.{
  if◌then◌else◌, ℤ, pos, ltb_ℤ, leb_ℤ, eqb_ℤ, Result, ◌>>=◌, ◌>>◌, fail_if, ok_or, Bool, ◌&&◌,
  Option, some,
}
use tron_rs.State.World.{
  World, Proposal, valid, latest_timestamp, latest_proposal_num, read_cell, get_prop_i64,
}
use tron_rs.Actuators.{
  ActuatorError, proposal_not_exists, proposal_expired, proposal_cancelled, state, lift,
}
use tron_rs.Actuators

abbrev pub maintenance_time_interval_ms : ℤ
maintenance_time_interval_ms = pos 21_600_000

abbrev pub pending : ℤ
pending = pos 0

abbrev pub cancelled : ℤ
cancelled = pos 3

-- The ids 0 to 26.
unfoldable pub is_allowed_param : ℤ → Bool
is_allowed_param id = leb_ℤ (pos 0) id && leb_ℤ id (pos 26)

unfoldable pub get_proposal : World → ℤ → Result ActuatorError (Option Proposal)
unfolding lift read_cell
get_proposal w id = lift (read_cell (w.proposals id))

unfoldable pub put_proposal : Proposal → World → World
put_proposal p w = record w {
  proposals = λ id. if eqb_ℤ p.proposal_id id then some (valid p) else w.proposals id;
}

-- The proposal, or the error of an absent one.
unfoldable pub need_proposal : World → ℤ → ActuatorError → Result ActuatorError Proposal
unfolding get_proposal
need_proposal w id missing = do found ← get_proposal w id; ok_or found missing

-- The checks of `ProposalApproveActuator::validate` and `ProposalDeleteActuator::validate` that an
-- id is one that was given out, with its proposal.
unfoldable pub known_proposal : World → ℤ → Result ActuatorError Proposal
unfolding need_proposal
known_proposal w id = do
  fail_if (ltb_ℤ (get_prop_i64 w latest_proposal_num) id) (Actuators.validate proposal_not_exists)
  need_proposal w id (Actuators.validate proposal_not_exists)

-- The checks that a proposal is open: not expired, not cancelled.
unfoldable pub check_open : World → Proposal → Result ActuatorError (Unit {0})
check_open w p = do
  fail_if (leb_ℤ p.expiration_time (get_prop_i64 w latest_timestamp))
      (Actuators.validate proposal_expired)
  fail_if (eqb_ℤ p.state cancelled) (Actuators.validate proposal_cancelled)
