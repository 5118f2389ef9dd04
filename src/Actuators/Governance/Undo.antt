-- ===== src/Actuators/Governance/Undo.antt =====
-- An approval of crates/actuators/src/proposal.rs that is taken back.
use tron_rs.Prelude.Endian.{bytes_eq_refl}
use mathlib.Core.Path.{subst}
use tron_rs.Actuators.Governance.Approve.{
  ProposalApproveContract, check_approval, validate, has_approved, with_approval, execute,
}
use tron_rs.Actuators.Governance.Approve
use tron_rs.Prelude.{
  Bool-cases, Bytes, ℤ, pos, ltb_ℤ, eqb_ℤ, eqb_ℤ_iff, ok, fail_if, ◌≡◌, refl, sym, ap, ◌∙◌, inl,
  inr, true, false, not, some, arith,
}
use tron_rs.State.World.{
  World, Proposal, latest_proposal_num, read_cell, account_exists, get_prop_i64, valid,
  witness_exists,
}
use tron_rs.Actuators.{
  invalid_address, account_not_exists, witness_not_exists, lift, parse_address, proposal_not_exists,
}
use tron_rs.Actuators
use tron_rs.Actuators.Outcomes.{
  Ensures, OnOk-at, given-Ensures, bind-Ensures, fail_if-ok, parse_address-same,
}
use tron_rs.Actuators.Governance.{
  get_proposal, put_proposal, need_proposal, known_proposal, check_open,
}
use tron_rs.Actuators.Governance.Keeps.{IsRegister, stored_is}
use tron_rs.Actuators.Governance.Checked.{known_proposal_found}
use tron_rs.Actuators.Governance.Approvals.{retract-append, has_approved-append}

-- Each check of `ProposalApproveActuator::validate`, passed.
record Approved (w : World) (c : ProposalApproveContract) (p : Proposal) : Type 0 where
  owner : parse_address c.owner_address invalid_address ≡ ok c.owner_address
  exists : account_exists w c.owner_address ≡ true
  witness : witness_exists w c.owner_address ≡ true
  known : known_proposal w c.proposal_id ≡ ok p
  opened : check_open w p ≡ ok tt
  approval : check_approval c c.owner_address p ≡ ok tt

approve-Approved :
    (w : World) (c : ProposalApproveContract)
    → Ensures ((p : Proposal) × Approved w c p) (Approve.validate w c)
unfolding Approve.validate
approve-Approved w c = bind-Ensures (parse_address c.owner_address invalid_address) _ λ owner e.
    let same =
      OnOk-at _ (parse_address c.owner_address invalid_address) owner
        (parse_address-same c.owner_address invalid_address) e in
    let missing = not (account_exists w owner) in
    let stranger = not (witness_exists w owner) in
    bind-Ensures (fail_if missing (Actuators.validate account_not_exists)) _ λ t₁ e₁.
      bind-Ensures (fail_if stranger (Actuators.validate witness_not_exists)) _ λ t₂ e₂.
        bind-Ensures (known_proposal w c.proposal_id) _ λ p e₃.
          bind-Ensures (check_open w p) _ λ t₄ e₄.
            bind-Ensures (check_approval c owner p) _ λ t₅ e₅.
              let x = fail_if-ok missing (Actuators.validate account_not_exists) t₁ e₁ in
              let y = fail_if-ok stranger (Actuators.validate witness_not_exists) t₂ e₂ in
              given-Ensures (
                p,
                record {
                  owner = e ∙ ap ok same;
                  exists = subst (λ o. account_exists w o ≡ true) same (ground (arith, x));
                  witness = subst (λ o. witness_exists w o ≡ true) same (ground (arith, y));
                  known = e₃;
                  opened = e₄;
                  approval = subst (λ o. check_approval c o p ≡ ok tt) same e₅;
                },
              )

known_in_range :
    (w : World) (id : ℤ)
    → Ensures (ltb_ℤ (get_prop_i64 w latest_proposal_num) id ≡ false) (known_proposal w id)
unfolding known_proposal
known_in_range w id =
    let above = ltb_ℤ (get_prop_i64 w latest_proposal_num) id in
    bind-Ensures (fail_if above (Actuators.validate proposal_not_exists)) _
      λ t e. given-Ensures (fail_if-ok above (Actuators.validate proposal_not_exists) t e)

known_proposal-put_proposal :
    (w : World) (id : ℤ) (p q : Proposal)
    → known_proposal w id ≡ ok p
    → q.proposal_id ≡ id
    → known_proposal (put_proposal q w) id ≡ ok q
unfolding known_proposal need_proposal get_proposal lift read_cell put_proposal get_prop_i64
known_proposal-put_proposal w id p q e s =
    rw ((known_in_range w id).holds p e, (eqb_ℤ_iff q.proposal_id id).1 s) refl

execute_found :
    (w : World) (c : ProposalApproveContract) (p : Proposal)
    → parse_address c.owner_address invalid_address ≡ ok c.owner_address
    → w.proposals c.proposal_id ≡ some (valid p)
    → Approve.execute w c ≡ (put_proposal (with_approval c c.owner_address p) w, ok (pos 0))
unfolding Approve.execute need_proposal get_proposal lift read_cell
execute_found w c p owner found = rw (owner, found) refl

-- The same witness takes its approval back.
abbrev pub retraction : ProposalApproveContract → ProposalApproveContract
retraction c = record c { is_add_approval = false }

retract_passes :
    (w : World) (c : ProposalApproveContract) (p : Proposal)
    → p.proposal_id ≡ c.proposal_id
    → c.is_add_approval ≡ true
    → Approved w c p
    → Approve.validate (put_proposal (with_approval c c.owner_address p) w) (retraction c)
      ≡ ok (pos 0)
unfolding Approve.validate with_approval check_open check_approval account_exists witness_exists
    put_proposal get_prop_i64
retract_passes w c p same adds h =
    let q = with_approval c c.owner_address p in
    let known = known_proposal-put_proposal w c.proposal_id p q h.known same in
    let there : has_approved c.owner_address q.approvals ≡ true = rw adds (
      has_approved-append c.owner_address c.owner_address p.approvals
      ∙ rw (bytes_eq_refl c.owner_address) (ground arith)) in
    rw (h.owner, h.exists, h.witness, known, h.opened, there) refl

retracted_is :
    (c : ProposalApproveContract) (p : Proposal)
    → c.is_add_approval ≡ true
    → check_approval c c.owner_address p ≡ ok tt
    → with_approval (retraction c) c.owner_address (with_approval c c.owner_address p) ≡ p
unfolding with_approval check_approval
retracted_is c p adds h =
    let e = retract-append c.owner_address p.approvals (ground (arith, adds, h)) in
    rw adds (ap (λ a. record p { approvals = a }) e)

with_approval_id :
    (c : ProposalApproveContract) (owner : Bytes) (p : Proposal)
    → (with_approval c owner p).proposal_id ≡ p.proposal_id
unfolding with_approval
with_approval_id c owner p = refl

put_stored :
    (w : World) (q : Proposal) (id : ℤ)
    → q.proposal_id ≡ id
    → (put_proposal q w).proposals id ≡ some (valid q)
unfolding put_proposal
put_stored w q id e = rw ((eqb_ℤ_iff q.proposal_id id).1 e) refl

restored :
    (w : World) (p q : Proposal) (id : ℤ)
    → w.proposals p.proposal_id ≡ some (valid p)
    → q.proposal_id ≡ p.proposal_id
    → get_proposal (put_proposal p (put_proposal q w)) id ≡ get_proposal w id
unfolding get_proposal put_proposal
restored w p q id found same = elim (Bool-cases (eqb_ℤ p.proposal_id id)) [
  | inl e ↦
      let here =
        subst (λ i. w.proposals i ≡ some (valid p)) ((eqb_ℤ_iff p.proposal_id id).0 e) found in
      rw (e, here) refl
  | inr e ↦ rw (same, e) refl
]

-- In a well-formed register, an approval that is validated is executed, and in the world after it the same witness may take it back:
-- that is validated and executed too, and every id then holds the proposal that it held before.
pub approve_then_retract :
    (w : World) (c : ProposalApproveContract) (r : ℤ)
    → IsRegister w
    → c.is_add_approval ≡ true
    → Approve.validate w c ≡ ok r
    → let w' = (Approve.execute w c).0 in
      let w'' = (Approve.execute w' (retraction c)).0 in
      (Approve.validate w' (retraction c) ≡ ok (pos 0))
      × ((Approve.execute w' (retraction c)).1 ≡ ok (pos 0))
      × ((id : ℤ) → get_proposal w'' id ≡ get_proposal w id)
approve_then_retract w c r h adds run =
    let (p, passed) = (approve-Approved w c).holds r run in
    let stored =
      OnOk-at _ (known_proposal w c.proposal_id) p (known_proposal_found w c.proposal_id)
        passed.known in
    let same = (stored_is w h c.proposal_id p stored).same_id in
    let found = subst (λ i. w.proposals i ≡ some (valid p)) (sym same) stored in
    let q = with_approval c c.owner_address p in
    let q_same = with_approval_id c c.owner_address p in
    let w₁ = put_proposal q w in
    let stored₁ = put_stored w q c.proposal_id (q_same ∙ same) in
    let back = retracted_is c p adds passed.approval in
    let second : Approve.execute w₁ (retraction c) ≡ (put_proposal p w₁, ok (pos 0)) =
      execute_found w₁ (retraction c) q passed.owner stored₁
      ∙ ap (λ x. (put_proposal x w₁, ok (pos 0))) back in
    rw (execute_found w c p passed.owner stored) (
      retract_passes w c p same adds passed,
      ap (λ x. x.1) second,
      λ id. ap (λ x. get_proposal x.0 id) second ∙ restored w p q id found q_same,
    )
