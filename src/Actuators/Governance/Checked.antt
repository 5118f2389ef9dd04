-- ===== src/Actuators/Governance/Checked.antt =====
-- What `validate` of the contracts of crates/actuators/src/proposal.rs ensures for `execute`.
use mathlib.Core.Path.{subst}
use tron_rs.Actuators.Governance.Create.{ProposalCreateContract, check_parameters, validate}
use tron_rs.Actuators.Governance.Approve.{ProposalApproveContract, check_approval}
use tron_rs.Actuators.Governance.Delete.{ProposalDeleteContract}
use tron_rs.Actuators.Governance.Create
use tron_rs.Actuators.Governance.Approve
use tron_rs.Actuators.Governance.Delete
use tron_rs.Prelude.{
  ◌==◌, length, All, bytes_eq, ℤ, ltb_ℤ, leb_ℤ, eqb_ℤ, ok, ◌>>=◌, fail_if, ok_or, ◌≡◌, refl, true,
  false, not, Option, none, some, List, [], ◌∷◌, arith,
}
use tron_rs.State.World.{
  World, Proposal, Cell, valid, corrupt, latest_timestamp, latest_proposal_num, read_cell,
  account_exists, get_prop_i64, witness_exists,
}
use tron_rs.Actuators.{
  ActuatorError, invalid_address, account_not_exists, witness_not_exists, no_parameters,
  bad_parameter, proposal_not_exists, proposal_expired, not_proposed_by_owner, state, lift,
  parse_address,
}
use tron_rs.Actuators
use tron_rs.Actuators.Outcomes.{
  Ensures, OnOk, OnOk-bind, OnOk-then, OnOk-at, given-Ensures, bind-Ensures, fail_if-ok,
  parse_address-same, fail_if-false, OnOk-map,
}
use tron_rs.Actuators.Governance.{
  cancelled, is_allowed_param, get_proposal, need_proposal, known_proposal, check_open,
}

check_parameters_allowed :
    (parameters : List (ℤ × ℤ))
    → OnOk (λ _. All (λ q. is_allowed_param q.0 ≡ true) parameters) (check_parameters parameters)
unfolding check_parameters
check_parameters_allowed [] = tt
check_parameters_allowed (p ∷ parameters) =
    OnOk-then _ _ (fail_if (not (is_allowed_param p.0)) (Actuators.validate bad_parameter)) _
      (fail_if-false _ _)
      λ _ e.
        OnOk-map _ _ (check_parameters parameters) (check_parameters_allowed parameters)
          λ _ rest. (ground (arith, e), rest)

abbrev pub Good : List (ℤ × ℤ) → Type 0
Good parameters =
    (length parameters == 0 ≡ false) × All (λ q. is_allowed_param q.0 ≡ true) parameters

pub create-Good :
    (w : World) (c : ProposalCreateContract) → Ensures (Good c.parameters) (Create.validate w c)
unfolding Create.validate
create-Good w c = bind-Ensures (parse_address c.owner_address invalid_address) _ λ owner _.
    bind-Ensures (fail_if (not (account_exists w owner)) (Actuators.validate account_not_exists)) _
      λ _ _.
        bind-Ensures
          (fail_if (not (witness_exists w owner)) (Actuators.validate witness_not_exists)) _
          λ _ _.
            let none_given = length c.parameters == 0 in
            bind-Ensures (fail_if none_given (Actuators.validate no_parameters)) _ λ t e.
              bind-Ensures (check_parameters c.parameters) _ λ u f. given-Ensures (
                fail_if-ok none_given (Actuators.validate no_parameters) t e,
                OnOk-at _ (check_parameters c.parameters) u (check_parameters_allowed c.parameters)
                    f,
              )

-- What the checks of an approval and of a deletion have found.
pub record IsOpen (w : World) (id : ℤ) (p : Proposal) : Type 0 where
  pub stored : w.proposals id ≡ some (valid p)
  pub not_cancelled : eqb_ℤ p.state cancelled ≡ false

pub need_proposal_found :
    (w : World) (id : ℤ) (missing : ActuatorError)
    → OnOk (λ p. w.proposals id ≡ some (valid p)) (need_proposal w id missing)
unfolding need_proposal get_proposal lift read_cell
need_proposal_found w id missing = go (w.proposals id)
  where
    go :
        (r : Option (Cell Proposal))
        → OnOk (λ p. r ≡ some (valid p)) (lift (read_cell r) >>= λ found. ok_or found missing)
    go none = tt
    go (some (valid p)) = refl
    go (some corrupt) = tt

pub known_proposal_found :
    (w : World) (id : ℤ) → OnOk (λ p. w.proposals id ≡ some (valid p)) (known_proposal w id)
unfolding known_proposal
known_proposal_found w id =
    OnOk-bind _
      (fail_if (ltb_ℤ (get_prop_i64 w latest_proposal_num) id)
        (Actuators.validate proposal_not_exists))
      _ λ _. need_proposal_found w id (Actuators.validate proposal_not_exists)

check_open-open :
    (w : World) (p : Proposal) → OnOk (λ _. eqb_ℤ p.state cancelled ≡ false) (check_open w p)
unfolding check_open
check_open-open w p =
    OnOk-bind _
      (fail_if (leb_ℤ p.expiration_time (get_prop_i64 w latest_timestamp))
        (Actuators.validate proposal_expired))
      _ λ _. fail_if-false _ _

pub approve-IsOpen :
    (w : World) (c : ProposalApproveContract)
    → Ensures
        ((p : Proposal) × (IsOpen w c.proposal_id p × (check_approval c c.owner_address p ≡ ok tt)))
        (Approve.validate w c)
unfolding Approve.validate
approve-IsOpen w c = bind-Ensures (parse_address c.owner_address invalid_address) _ λ owner e.
    let same =
      OnOk-at _ (parse_address c.owner_address invalid_address) owner
        (parse_address-same c.owner_address invalid_address) e in
    bind-Ensures (fail_if (not (account_exists w owner)) (Actuators.validate account_not_exists)) _
      λ _ _.
        bind-Ensures
          (fail_if (not (witness_exists w owner)) (Actuators.validate witness_not_exists)) _
          λ _ _. bind-Ensures (known_proposal w c.proposal_id) _ λ p f.
            bind-Ensures (check_open w p) _ λ t g. bind-Ensures (check_approval c owner p) _ λ u k.
              given-Ensures (
                p,
                (
                  record {
                    stored =
                        OnOk-at _ (known_proposal w c.proposal_id) p
                          (known_proposal_found w c.proposal_id) f;
                    not_cancelled = OnOk-at _ (check_open w p) t (check_open-open w p) g;
                  },
                  subst (λ o. check_approval c o p ≡ ok tt) same k,
                ),
              )

pub delete-IsOpen :
    (w : World) (c : ProposalDeleteContract)
    → Ensures ((p : Proposal) × IsOpen w c.proposal_id p) (Delete.validate w c)
unfolding Delete.validate
delete-IsOpen w c = bind-Ensures (parse_address c.owner_address invalid_address) _ λ owner _.
    bind-Ensures (fail_if (not (account_exists w owner)) (Actuators.validate account_not_exists)) _
      λ _ _. bind-Ensures (known_proposal w c.proposal_id) _ λ p f.
        bind-Ensures
          (fail_if (not (bytes_eq p.proposer_address owner))
            (Actuators.validate not_proposed_by_owner))
          _
          λ _ _. bind-Ensures (check_open w p) _ λ t g. given-Ensures (
            p,
            record {
              stored =
                  OnOk-at _ (known_proposal w c.proposal_id) p
                    (known_proposal_found w c.proposal_id) f;
              not_cancelled = OnOk-at _ (check_open w p) t (check_open-open w p) g;
            },
          )
