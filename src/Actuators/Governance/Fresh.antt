-- ===== src/Actuators/Governance/Fresh.antt =====
-- A new proposal in the register of crates/actuators/src/proposal.rs.
use mathlib.Core.Path.{subst}
use tron_rs.Prelude.{
  Bool-cases, ℤ, pos, ◌+ℤ◌, ◌≤ℤ◌, ◌<ℤ◌, eqb_ℤ, int_laws, eqb_ℤ_iff, IsI64, ◌≡◌, sym, ◌∙◌, inl, inr,
  Option, none, some,
}
use tron_rs.State.World.{
  World, Proposal, Cell, valid, corrupt, latest_proposal_num, get_prop_i64, put_prop_i64,
}
use tron_rs.State.World.Laws.{get_prop-put_prop}
use tron_rs.Actuators.Governance.{put_proposal}
use tron_rs.Actuators.Governance.Keeps.{
  IsProposal, Stored, IsRegister, Evolves, Later-refl, stored_is,
}

abbrev pub latest_id : World → ℤ
latest_id w = get_prop_i64 w latest_proposal_num

Stored-later :
    (latest next id : ℤ) (r : Option (Cell Proposal))
    → latest ≤ℤ next
    → Stored latest id r
    → Stored next id r
Stored-later latest next id none le h = tt
Stored-later latest next id (some (valid p)) le h = record {
  same_id = h.same_id;
  id_min = h.id_min;
  id_max = omega (int_laws, h.id_max);
  some_parameters = h.some_parameters;
  parameters = h.parameters;
  approvals = h.approvals;
  window = h.window;
  state = h.state;
}
Stored-later latest next id (some corrupt) le h = h

pub next_bounds :
    (x : ℤ)
    → pos 0 ≤ℤ x
    → x <ℤ pos 9_223_372_036_854_775_807
    → (pos 1 ≤ℤ x +ℤ pos 1)
      × (x +ℤ pos 1 ≤ℤ pos 9_223_372_036_854_775_807)
      × (x ≤ℤ x +ℤ pos 1)
      × IsI64 (x +ℤ pos 1)
next_bounds x low high =
    ((omega int_laws), (omega int_laws), (omega int_laws), ((omega int_laws), (omega int_laws)))

not_below : (x : ℤ) → pos 1 ≤ℤ x → pos 0 ≤ℤ x
not_below x h = omega (int_laws, h)

pub le_self : (x : ℤ) → x ≤ℤ x
le_self x = omega int_laws

above_all : (x i : ℤ) → x +ℤ pos 1 ≡ i → i ≤ℤ x → ⊥
above_all x i e = subst (λ y. y ≤ℤ x → ⊥) e λ le. omega (int_laws, le)

-- A proposal under the next id, and the counter moved to it.
pub put-new :
    (w : World) (p : Proposal)
    → IsRegister w
    → latest_id w <ℤ pos 9_223_372_036_854_775_807
    → p.proposal_id ≡ latest_id w +ℤ pos 1
    → IsProposal p.proposal_id p.proposal_id p
    → Evolves w (put_prop_i64 latest_proposal_num p.proposal_id (put_proposal p w))
unfolding put_proposal put_prop_i64
put-new w p h below next good =
    let b = next_bounds (latest_id w) h.latest_min below in
    let put = put_proposal p w in
    let range : IsI64 p.proposal_id = rw next b.3 in
    let counter : get_prop_i64 (put_prop_i64 latest_proposal_num p.proposal_id put)
          latest_proposal_num
        ≡ p.proposal_id =
      get_prop-put_prop latest_proposal_num latest_proposal_num p.proposal_id put range in
    let above : latest_id w ≤ℤ p.proposal_id = rw next b.2 in
    record {
      register = record {
        latest_min = rw (counter, next) (not_below _ b.0);
        latest_max = rw (counter, next) b.1;
        each = λ i. elim (Bool-cases (eqb_ℤ p.proposal_id i)) [
          | inl e ↦
              let here = (eqb_ℤ_iff p.proposal_id i).0 e in
              rw (counter, e) (subst (λ j. IsProposal p.proposal_id j p) here good)
          | inr e ↦
              rw (counter, e)
                (Stored-later (latest_id w) p.proposal_id i (w.proposals i) above (h.each i))
        ];
      };
      lasts = λ i r e. elim (Bool-cases (eqb_ℤ p.proposal_id i)) [
        | inl s ↦
            let here = sym next ∙ (eqb_ℤ_iff p.proposal_id i).0 s in
            absurd (above_all (latest_id w) i here (stored_is w h i r e).id_max)
        | inr s ↦ (r, (rw s e, Later-refl r))
      ];
    }
