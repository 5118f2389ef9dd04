-- ===== src/Actuators/Governance/Executed.antt =====
-- What the contracts of crates/actuators/src/proposal.rs, once validated, do to the register.
use mathlib.Core.Path.{subst}
use tron_rs.Actuators.Governance.Create.{ProposalCreateContract, validate, new_proposal, execute}
use tron_rs.Actuators.Governance.Approve.{ProposalApproveContract, check_approval, with_approval}
use tron_rs.Actuators.Governance.Delete.{ProposalDeleteContract}
use tron_rs.Actuators.Governance.Create
use tron_rs.Actuators.Governance.Approve
use tron_rs.Actuators.Governance.Delete
use tron_rs.Prelude.{
  Bool-cases, Bytes, ℤ, pos, ◌+ℤ◌, ◌<ℤ◌, eqb_ℤ, checked, add_i64, add_i64-in, ok, ok_or, ◌≡◌, refl,
  sym, inl, inr, true, false, some, arith,
}
use tron_rs.State.World.{World, Proposal, valid, latest_timestamp, get_prop_i64}
use tron_rs.Actuators.{
  invalid_address, long_overflow, proposal_not_exists, state, parse_address, try,
}
use tron_rs.Actuators
use tron_rs.Actuators.Outcomes.{try_then, OnOk-true, parse_address-same, checked-same}
use tron_rs.Actuators.Governance.{
  maintenance_time_interval_ms, cancelled, put_proposal, need_proposal,
}
use tron_rs.Actuators.Governance.Checked.{
  create-Good, need_proposal_found, approve-IsOpen, delete-IsOpen,
}
use tron_rs.Actuators.Governance.Keeps.{
  IsProposal, IsRegister, Later, Evolves, Evolves-refl, stored_is, cell_is, put-Evolves,
}
use tron_rs.Actuators.Governance.Approvals.{Distinct, append-Distinct, retract-Distinct}
use tron_rs.Actuators.Governance.Fresh.{put-new, latest_id, next_bounds, le_self}

pub create-Evolves :
    (w : World) (c : ProposalCreateContract) (r : ℤ)
    → IsRegister w
    → latest_id w <ℤ pos 9_223_372_036_854_775_807
    → Create.validate w c ≡ ok r
    → Evolves w (Create.execute w c).0
unfolding Create.execute new_proposal
create-Evolves w c r h below run =
    let good = (create-Good w c).holds r run in
    let now = get_prop_i64 w latest_timestamp in
    let b = next_bounds (latest_id w) h.latest_min below in
    let next = add_i64-in (latest_id w) (pos 1) b.3 in
    try_then (Evolves w) _ w (parse_address c.owner_address invalid_address) _ (Evolves-refl w h)
      (OnOk-true _)
      λ owner _.
        try_then (Evolves w) _ w
          (ok_or (checked (now +ℤ maintenance_time_interval_ms)) (Actuators.execute long_overflow))
          _ (Evolves-refl w h)
          (checked-same (now +ℤ maintenance_time_interval_ms) (Actuators.execute long_overflow))
          λ expiration e.
            put-new w (new_proposal owner c.parameters (latest_id w) now expiration) h below next
              (record {
                same_id = refl;
                id_min = rw next b.0;
                id_max = le_self (add_i64 (latest_id w) (pos 1));
                some_parameters = good.0;
                parameters = good.1;
                approvals = tt;
                window = e;
                state = inl refl;
              })

never_cancelled : (s : ℤ) → eqb_ℤ s cancelled ≡ false → s ≡ cancelled → ⊥
never_cancelled s h e =
    let h' : true ≡ false = subst (λ x. eqb_ℤ x cancelled ≡ false) e h in ground arith

with_approval-Distinct :
    (c : ProposalApproveContract) (owner : Bytes) (p : Proposal)
    → check_approval c owner p ≡ ok tt
    → Distinct p.approvals
    → Distinct (with_approval c owner p).approvals
unfolding with_approval check_approval
with_approval-Distinct c owner p run d = elim (Bool-cases c.is_add_approval) [
  | inl e ↦ rw e (append-Distinct owner p.approvals (ground (arith, run)) d)
  | inr e ↦ rw e (retract-Distinct owner p.approvals d)
]

-- A contract that replaces the proposal that is stored under an id.
replace-Evolves :
    (w : World) (id : ℤ) (p : Proposal) (next : Proposal → Proposal)
    → IsRegister w
    → w.proposals id ≡ some (valid p)
    → (IsProposal (latest_id w) id p → IsProposal (latest_id w) id (next p))
    → Later p (next p)
    → Evolves w
        (try w
          (need_proposal w id (Actuators.execute proposal_not_exists))
          λ q. (put_proposal (next q) w, ok (pos 0))).0
replace-Evolves w id p next h found good later =
    try_then (Evolves w) _ w (need_proposal w id (Actuators.execute proposal_not_exists)) _
      (Evolves-refl w h) (need_proposal_found w id (Actuators.execute proposal_not_exists))
      λ q e.
        let same = cell_is (w.proposals id) p q found e in
        subst (λ x. Evolves w (put_proposal (next x) w)) same
          (put-Evolves w id p (next p) h found (good (stored_is w h id p found)) later)

pub approve-Evolves :
    (w : World) (c : ProposalApproveContract) (r : ℤ)
    → IsRegister w
    → Approve.validate w c ≡ ok r
    → Evolves w (Approve.execute w c).0
unfolding Approve.execute with_approval
approve-Evolves w c r h run =
    let (p, (opened, approval)) = (approve-IsOpen w c).holds r run in
    try_then (Evolves w) _ w (parse_address c.owner_address invalid_address) _ (Evolves-refl w h)
      (parse_address-same c.owner_address invalid_address)
      λ owner same.
        replace-Evolves w c.proposal_id p (with_approval c owner) h opened.stored
          (λ g. record {
            same_id = g.same_id;
            id_min = g.id_min;
            id_max = g.id_max;
            some_parameters = g.some_parameters;
            parameters = g.parameters;
            approvals =
                with_approval-Distinct c owner p
                  (subst (λ o. check_approval c o p ≡ ok tt) (sym same) approval) g.approvals;
            window = g.window;
            state = g.state;
          })
          (record {
            proposal_id = refl;
            proposer = refl;
            parameters = refl;
            create_time = refl;
            expiration_time = refl;
            closed = λ e. absurd (never_cancelled p.state opened.not_cancelled e);
          })

pub delete-Evolves :
    (w : World) (c : ProposalDeleteContract) (r : ℤ)
    → IsRegister w
    → Delete.validate w c ≡ ok r
    → Evolves w (Delete.execute w c).0
unfolding Delete.execute
delete-Evolves w c r h run =
    let (p, opened) = (delete-IsOpen w c).holds r run in
    replace-Evolves w c.proposal_id p (λ q. record q { state = cancelled }) h opened.stored
      (λ g. record {
        same_id = g.same_id;
        id_min = g.id_min;
        id_max = g.id_max;
        some_parameters = g.some_parameters;
        parameters = g.parameters;
        approvals = g.approvals;
        window = g.window;
        state = inr refl;
      })
      (record {
        proposal_id = refl;
        proposer = refl;
        parameters = refl;
        create_time = refl;
        expiration_time = refl;
        closed = λ e. absurd (never_cancelled p.state opened.not_cancelled e);
      })
