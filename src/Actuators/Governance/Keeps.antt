-- ===== src/Actuators/Governance/Keeps.antt =====
-- The register of proposals of crates/actuators/src/proposal.rs: what is stored under an id, and how
-- a stored proposal may change.
use mathlib.Core.Path.{subst}
use tron_rs.Prelude.{
  ◌==◌, Bool-cases, length, All, ℤ, pos, ◌+ℤ◌, ◌≤ℤ◌, eqb_ℤ, eqb_ℤ_iff, ◌≡◌, refl, sym, ap, ◌∙◌, ◌⊎◌,
  inl, inr, true, false, Option, none, some, arith,
}
use tron_rs.State.World.{World, Proposal, Cell, valid, corrupt, latest_proposal_num, get_prop_i64}
use tron_rs.Actuators.Governance.{
  pending, maintenance_time_interval_ms, cancelled, is_allowed_param, put_proposal,
}
use tron_rs.Actuators.Governance.Approvals.{Distinct}

-- A stored proposal: its id was given out and is the one that it is stored under, it has parameters and
-- they are allowed, nobody approves it twice, and it is open for the fixed time.
pub record IsProposal (latest id : ℤ) (p : Proposal) : Type 0 where
  pub same_id : p.proposal_id ≡ id
  pub id_min : pos 1 ≤ℤ id
  pub id_max : id ≤ℤ latest
  pub some_parameters : length p.parameters == 0 ≡ false
  pub parameters : All (λ q. is_allowed_param q.0 ≡ true) p.parameters
  pub approvals : Distinct p.approvals
  pub window : p.expiration_time ≡ p.create_time +ℤ maintenance_time_interval_ms
  pub state : (p.state ≡ pending) ⊎ (p.state ≡ cancelled)

abbrev pub Stored : ℤ → ℤ → Option (Cell Proposal) → Type 0
Stored latest id none = Unit
Stored latest id (some (valid p)) = IsProposal latest id p
Stored latest id (some corrupt) = ⊥

pub record IsRegister (w : World) : Type 0 where
  pub latest_min : pos 0 ≤ℤ get_prop_i64 w latest_proposal_num
  pub latest_max : get_prop_i64 w latest_proposal_num ≤ℤ pos 9_223_372_036_854_775_807
  pub each : (id : ℤ) → Stored (get_prop_i64 w latest_proposal_num) id (w.proposals id)

-- What happens to a proposal leaves what was proposed; nothing happens to a cancelled one.
pub record Later (p q : Proposal) : Type 0 where
  pub proposal_id : q.proposal_id ≡ p.proposal_id
  pub proposer : q.proposer_address ≡ p.proposer_address
  pub parameters : q.parameters ≡ p.parameters
  pub create_time : q.create_time ≡ p.create_time
  pub expiration_time : q.expiration_time ≡ p.expiration_time
  pub closed : p.state ≡ cancelled → q ≡ p

abbrev pub Lasts : World → World → Type 0
Lasts v w =
    (id : ℤ) (p : Proposal)
    → v.proposals id ≡ some (valid p)
    → (q : Proposal) × ((w.proposals id ≡ some (valid q)) × Later p q)

-- The register is well formed, and the proposals of the other world are still there.
pub record Evolves (v w : World) : Type 0 where
  pub register : IsRegister w
  pub lasts : Lasts v w

pub Later-refl : (p : Proposal) → Later p p
Later-refl p = record {
  proposal_id = refl;
  proposer = refl;
  parameters = refl;
  create_time = refl;
  expiration_time = refl;
  closed = λ e. refl;
}

Later-trans : (p q r : Proposal) → Later p q → Later q r → Later p r
Later-trans p q r h k = record {
  proposal_id = k.proposal_id ∙ h.proposal_id;
  proposer = k.proposer ∙ h.proposer;
  parameters = k.parameters ∙ h.parameters;
  create_time = k.create_time ∙ h.create_time;
  expiration_time = k.expiration_time ∙ h.expiration_time;
  closed = λ e. k.closed (ap (λ x. x.state) (h.closed e) ∙ e) ∙ h.closed e;
}

pub Evolves-refl : (w : World) → IsRegister w → Evolves w w
Evolves-refl w h = record { register = h; lasts = λ id p e. (p, (e, Later-refl p)) }

pub Evolves-trans : (u v w : World) → Evolves u v → Evolves v w → Evolves u w
Evolves-trans u v w h k = record {
  register = k.register;
  lasts = λ id p e.
      let (q, (f, l)) = h.lasts id p e in
      let (r, (g, m)) = k.lasts id q f in (r, (g, Later-trans p q r l m));
}

pub stored_is :
    (w : World) (h : IsRegister w) (id : ℤ) (p : Proposal)
    → w.proposals id ≡ some (valid p)
    → IsProposal (get_prop_i64 w latest_proposal_num) id p
stored_is w h id p e = subst (Stored (get_prop_i64 w latest_proposal_num) id) e (h.each id)

pub cell_is :
    (r : Option (Cell Proposal)) (p q : Proposal) → r ≡ some (valid p) → r ≡ some (valid q) → p ≡ q
cell_is r p q e f = ground arith

-- A proposal is replaced by a later one.
pub put-Evolves :
    (w : World) (id : ℤ) (p q : Proposal)
    → IsRegister w
    → w.proposals id ≡ some (valid p)
    → IsProposal (get_prop_i64 w latest_proposal_num) id q
    → Later p q
    → Evolves w (put_proposal q w)
unfolding put_proposal get_prop_i64
put-Evolves w id p q h found good later = record {
  register = record {
    latest_min = h.latest_min;
    latest_max = h.latest_max;
    each = λ i. elim (Bool-cases (eqb_ℤ q.proposal_id i)) [
      | inl e ↦
          let here = sym good.same_id ∙ (eqb_ℤ_iff q.proposal_id i).0 e in
          rw e (subst (λ j. IsProposal (get_prop_i64 w latest_proposal_num) j q) here good)
      | inr e ↦ rw e (h.each i)
    ];
  };
  lasts = λ i r e. elim (Bool-cases (eqb_ℤ q.proposal_id i)) [
    | inl s ↦
        let here = sym ((eqb_ℤ_iff q.proposal_id i).0 s) ∙ good.same_id in
        let same =
          cell_is (w.proposals id) p r found (subst (λ j. w.proposals j ≡ some (valid r)) here e) in
        (q, (rw s refl, subst (λ x. Later x q) same later))
    | inr s ↦ (r, (rw s e, Later-refl r))
  ];
}
