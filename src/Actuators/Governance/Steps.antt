-- ===== src/Actuators/Governance/Steps.antt =====
-- Sequences of the contracts of crates/actuators/src/proposal.rs, each validated and then executed, with
-- whatever else happens between them.
use tron_rs.Actuators.Governance.Create.{ProposalCreateContract, validate, execute}
use tron_rs.Actuators.Governance.Approve.{ProposalApproveContract}
use tron_rs.Actuators.Governance.Delete.{ProposalDeleteContract}
use tron_rs.Actuators.Governance.Create
use tron_rs.Actuators.Governance.Approve
use tron_rs.Actuators.Governance.Delete
use tron_rs.Prelude.{ℤ, pos, ◌<ℤ◌, ok, ◌≡◌}
use tron_rs.State.World.{World}
use tron_rs.Actuators.Governance.Keeps.{
  IsRegister, Evolves, Later-refl, Evolves-refl, Evolves-trans,
}
use tron_rs.Actuators.Governance.Fresh.{latest_id}
use tron_rs.Actuators.Governance.Executed.{create-Evolves, approve-Evolves, delete-Evolves}

-- A contract that has been validated is executed, a proposal while there is a next id; or something else
-- happens, such as a block or another contract, which leaves the proposals and their last id alone.
pub data Step : World → World → Type 0 where
  creates :
      (w : World) (c : ProposalCreateContract) (r : ℤ)
      → latest_id w <ℤ pos 9_223_372_036_854_775_807
      → Create.validate w c ≡ ok r
      → Step w (Create.execute w c).0
  approves :
      (w : World) (c : ProposalApproveContract) (r : ℤ)
      → Approve.validate w c ≡ ok r
      → Step w (Approve.execute w c).0
  deletes :
      (w : World) (c : ProposalDeleteContract) (r : ℤ)
      → Delete.validate w c ≡ ok r
      → Step w (Delete.execute w c).0
  other : (v w : World) → w.proposals ≡ v.proposals → latest_id w ≡ latest_id v → Step v w

pub data Steps : World → World → Type 0 where
  none_yet : (w : World) → Steps w w
  then_step : (u v w : World) → Steps u v → Step v w → Steps u w

other-Evolves :
    (v w : World)
    → w.proposals ≡ v.proposals
    → latest_id w ≡ latest_id v
    → IsRegister v
    → Evolves v w
other-Evolves v w e f h = record {
  register = record {
    latest_min = rw f h.latest_min;
    latest_max = rw f h.latest_max;
    each = λ id. rw (f, e) (h.each id);
  };
  lasts = λ id p g. (p, (rw e g, Later-refl p));
}

Step-Evolves : (v w : World) → Step v w → IsRegister v → Evolves v w
Step-Evolves _ _ (creates w c r below run) h = create-Evolves w c r h below run
Step-Evolves _ _ (approves w c r run) h = approve-Evolves w c r h run
Step-Evolves _ _ (deletes w c r run) h = delete-Evolves w c r h run
Step-Evolves _ _ (other v w e f) h = other-Evolves v w e f h

-- Over any sequence of validated proposal contracts, of whatever accounts, and of other events that leave
-- the proposals alone, a well-formed register stays well formed: each proposal is under its own id, which
-- was given out, has allowed parameters and is approved by nobody twice. No proposal is lost: each one
-- keeps its proposer, parameters and times, and one that is cancelled does not change at all.
pub Steps-Evolves : (v w : World) → Steps v w → IsRegister v → Evolves v w
Steps-Evolves _ _ (none_yet w) h = Evolves-refl w h
Steps-Evolves _ _ (then_step u v w steps step) h =
    let before = Steps-Evolves u v steps h in
    Evolves-trans u v w before (Step-Evolves v w step before.register)
