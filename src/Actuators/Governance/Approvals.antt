-- ===== src/Actuators/Governance/Approvals.antt =====
-- The list of approvals of a proposal of crates/actuators/src/proposal.rs.
use tron_rs.Prelude.Endian.{bytes_eq_refl, bytes_eq_sym}
use tron_rs.Prelude.{
  Bool-cases, Bytes, bytes_eq, ◌≡◌, refl, inl, inr, false, ◌||◌, List, [], ◌∷◌, ◌++◌, arith,
}
use tron_rs.Actuators.Governance.Approve.{has_approved, retract}

-- Nobody is listed twice.
abbrev pub Distinct : List Bytes → Type 0
Distinct [] = Unit
Distinct (a ∷ approvals) = (has_approved a approvals ≡ false) × Distinct approvals

pub has_approved-append :
    (a owner : Bytes) (xs : List Bytes)
    → has_approved a (xs ++ (owner ∷ [])) ≡ has_approved a xs || bytes_eq owner a
unfolding has_approved
has_approved-append a owner [] = ground arith
has_approved-append a owner (x ∷ xs) = ground (arith, has_approved-append a owner xs)

pub append-Distinct :
    (owner : Bytes) (xs : List Bytes)
    → has_approved owner xs ≡ false
    → Distinct xs
    → Distinct (xs ++ (owner ∷ []))
unfolding has_approved
append-Distinct owner [] h d = (refl, tt)
append-Distinct owner (x ∷ xs) h d = (
  ground (arith, d.0, h, has_approved-append x owner xs, bytes_eq_sym owner x),
  append-Distinct owner xs (ground (arith, h)) d.1,
)

retract_none :
    (owner : Bytes) (xs : List Bytes) → has_approved owner xs ≡ false → retract owner xs ≡ xs
unfolding has_approved retract
retract_none owner [] h = refl
retract_none owner (x ∷ xs) h = ground (arith, retract_none owner xs, h)

-- An approval that is taken back leaves the others, in their order.
pub retract-append :
    (owner : Bytes) (xs : List Bytes)
    → has_approved owner xs ≡ false
    → retract owner (xs ++ (owner ∷ [])) ≡ xs
unfolding has_approved retract
retract-append owner [] h = rw (bytes_eq_refl owner) refl
retract-append owner (x ∷ xs) h = ground (arith, retract-append owner xs, h)

has_approved-retract :
    (a owner : Bytes) (xs : List Bytes)
    → has_approved a xs ≡ false
    → has_approved a (retract owner xs) ≡ false
unfolding has_approved retract
has_approved-retract a owner [] h = refl
has_approved-retract a owner (x ∷ xs) h = ground (arith, has_approved-retract a owner xs, h)

pub retract-Distinct : (owner : Bytes) (xs : List Bytes) → Distinct xs → Distinct (retract owner xs)
unfolding retract
retract-Distinct owner [] d = tt
retract-Distinct owner (x ∷ xs) d = elim (Bool-cases (bytes_eq x owner)) [
  | inl e ↦ rw e (retract-Distinct owner xs d.1)
  | inr e ↦ rw e (has_approved-retract x owner xs d.0, retract-Distinct owner xs d.1)
]
