-- ===== src/Tests/Committee.antt =====
-- The proposals of crates/actuators/src/proposal.rs at concrete inputs.
use tron_rs.Prelude.Endian.{i64_to_be, i64_from_be}
use tron_rs.Prelude.{
  if◌then◌else◌, Bytes, bytes_eq, ℤ, pos, ◌+ℤ◌, wrap_i64, add_i64, ok, err, ◌≡◌, refl, Bool, true,
  ◌||◌, none, some, [], ◌∷◌, arith,
}
use tron_rs.Tests.Toy.{zeros, no_market, blank_account, blank_witness, blank_world}
use tron_rs.State.World.{World, Account, valid, account_exists, prop_value, get_prop_i64}
use tron_rs.Actuators.{proposal_cancelled}
use tron_rs.Actuators
use tron_rs.Actuators.Governance.{get_proposal}
use tron_rs.Actuators.Governance.Create.{
  ProposalCreateContract, check_parameters, validate, execute,
}
use tron_rs.Actuators.Governance.Approve.{ProposalApproveContract}
use tron_rs.Actuators.Governance.Delete.{ProposalDeleteContract}
use tron_rs.Actuators.Governance.Create
use tron_rs.Actuators.Governance.Approve
use tron_rs.Actuators.Governance.Delete
use tron_rs.Actuators.Governance.Keeps.{IsRegister, Evolves}
use tron_rs.Actuators.Governance.Steps.{
  Steps, none_yet, then_step, Steps-Evolves, creates, approves, deletes,
}
use tron_rs.Actuators.Governance.Undo.{retraction, approve_then_retract}

abbrev alice : Bytes
alice = 0x41 ∷ 1 ∷ zeros 19

abbrev bob : Bytes
bob = 0x41 ∷ 2 ∷ zeros 19

abbrev person : Bytes → Account
person addr = record blank_account {
  address = addr;
  create_time = pos 0;
  balance = pos 0;
  allowance = pos 0;
  latest_withdraw_time = pos 0;
  asset_v2 = [];
  frozen_v2 = [];
  unfrozen_v2 = [];
  votes = [];
}

abbrev is_member : Bytes → Bool
is_member a = bytes_eq a alice || bytes_eq a bob

-- Two witnesses, and no proposal yet.
abbrev committee : World
committee = record blank_world {
  accounts = λ a. if is_member a then some (valid (person a)) else none;
  brokerages = λ a. none;
  witnesses = λ a. if is_member a then some (valid blank_witness) else none;
  exchanges = λ n. none;
  proposals = λ n. none;
  props = λ k. none;
  market = no_market;
}

abbrev proposal : ProposalCreateContract
proposal = record { owner_address = alice; parameters = (pos 3, pos 70) ∷ (pos 11, pos 420) ∷ [] }

abbrev approval : ProposalApproveContract
approval = record { owner_address = bob; proposal_id = pos 1; is_add_approval = true }

abbrev deletion : ProposalDeleteContract
deletion = record { owner_address = alice; proposal_id = pos 1 }

abbrev proposed : World
proposed = (Create.execute committee proposal).0

abbrev approved : World
approved = (Approve.execute proposed approval).0

abbrev deleted : World
deleted = (Delete.execute approved deletion).0

committee-IsRegister : IsRegister committee
unfolding get_prop_i64 prop_value
committee-IsRegister = record {
  latest_min = omega arith;
  latest_max = omega arith;
  each = λ id. tt;
}

approval_passes : Approve.validate proposed approval ≡ ok (pos 0)
unfolding Create.validate Create.execute Approve.validate Approve.execute Delete.validate ◌+ℤ◌
    bytes_eq i64_to_be i64_from_be add_i64 wrap_i64
approval_passes = refl

created : Steps committee proposed
unfolding Create.validate account_exists check_parameters get_prop_i64 bytes_eq
created =
    then_step committee committee proposed (none_yet committee)
      (creates committee proposal (pos 0) (omega arith) refl)

removed : Steps committee deleted
unfolding Create.validate Create.execute Approve.validate Approve.execute Delete.validate ◌+ℤ◌
    bytes_eq i64_to_be i64_from_be add_i64 wrap_i64
removed =
    then_step committee approved deleted
      (then_step committee proposed approved created
        (approves proposed approval (pos 0) approval_passes))
      (deletes approved deletion (pos 0) refl)

Steps-Evolves_example : Evolves committee deleted
Steps-Evolves_example = Steps-Evolves committee deleted removed committee-IsRegister

approve_then_retract_example :
    (Approve.validate approved (retraction approval) ≡ ok (pos 0))
    × ((Approve.execute approved (retraction approval)).1 ≡ ok (pos 0))
    × ((id : ℤ)
        → get_proposal (Approve.execute approved (retraction approval)).0 id
          ≡ get_proposal proposed id)
approve_then_retract_example =
    approve_then_retract proposed approval (pos 0)
      (Steps-Evolves committee proposed created committee-IsRegister).register refl approval_passes

-- A cancelled proposal takes no approval.
cancelled_is_closed :
    Approve.validate deleted (record approval { owner_address = alice })
    ≡ err (Actuators.validate proposal_cancelled)
unfolding Create.validate Create.execute Approve.validate Approve.execute Delete.validate
    Delete.execute ◌+ℤ◌ bytes_eq i64_to_be i64_from_be add_i64 wrap_i64
cancelled_is_closed = refl
