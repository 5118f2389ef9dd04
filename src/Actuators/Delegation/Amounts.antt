-- ===== src/Actuators/Delegation/Amounts.antt =====
-- What crates/actuators/src/delegate.rs keeps of a delegation between two accounts, as four amounts of
-- one resource, and how its helpers change them.
use tron_rs.Prelude.{
  if◌then◌else◌, Bool-cases, Bytes, ℤ, pos, ◌+ℤ◌, ◌-ℤ◌, ◌≤ℤ◌, eqb_ℤ, i64_max, saturating, add_i64,
  ◌≡◌, refl, inl, inr, true, List, [], ◌∷◌, arith,
}
use tron_rs.State.World.{FreezeV2, Account, DelegatedResource}
use tron_rs.Actuators.Stake.{bandwidth}
use tron_rs.Actuators.Delegation.{
  resource_of, add_amounts, add_frozen_v2, owner_delegated, add_owner_delegated, receiver_acquired,
  next_acquired, add_receiver_acquired, rec_frozen, rec_set_frozen, rec_set_expire, rec_is_empty,
  new_record,
}

-- What the owner has frozen and has delegated, what the receiver has acquired, and what the record says.
pub record Position : Type 0 where
  pub frozen : ℤ
  pub delegated : ℤ
  pub acquired : ℤ
  pub recorded : ℤ

-- The amounts are not negative, and the record is part of what either side has.
pub record IsPosition (p : Position) : Type 0 where
  pub frozen_min : pos 0 ≤ℤ p.frozen
  pub recorded_min : pos 0 ≤ℤ p.recorded
  pub owner_has : p.recorded ≤ℤ p.delegated
  pub receiver_has : p.recorded ≤ℤ p.acquired
  pub owner_max : p.frozen +ℤ p.delegated ≤ℤ i64_max
  pub receiver_max : p.frozen +ℤ p.acquired ≤ℤ i64_max

abbrev pub delegated_by : Position → ℤ → Position
delegated_by p balance = record {
  frozen = p.frozen -ℤ balance;
  delegated = p.delegated +ℤ balance;
  acquired = p.acquired +ℤ balance;
  recorded = p.recorded +ℤ balance;
}

abbrev pub returned_by : Position → ℤ → Position
returned_by p balance = record {
  frozen = p.frozen +ℤ balance;
  delegated = p.delegated -ℤ balance;
  acquired = p.acquired -ℤ balance;
  recorded = p.recorded -ℤ balance;
}

-- The amounts of the entries of one resource.
abbrev pub entries : ℤ → List FreezeV2 → List ℤ
entries resource [] = []
entries resource (f ∷ frozen) =
    let rest = entries resource frozen in
    if eqb_ℤ f.resource resource then f.amount ∷ rest else rest

add_amounts-none :
    (acc : ℤ) (frozen : List FreezeV2) (resource : ℤ)
    → entries resource frozen ≡ []
    → add_amounts acc frozen resource ≡ acc
unfolding add_amounts
add_amounts-none acc [] resource e = refl
add_amounts-none acc (f ∷ frozen) resource e =
    ground (arith, add_amounts-none acc frozen resource, e)

pub add_amounts-single :
    (acc : ℤ) (frozen : List FreezeV2) (resource amount : ℤ)
    → entries resource frozen ≡ amount ∷ []
    → add_amounts acc frozen resource ≡ saturating (acc +ℤ amount)
unfolding add_amounts
add_amounts-single acc [] resource amount e = ground arith
add_amounts-single acc (f ∷ frozen) resource amount e = ground (
  arith,
  e,
  add_amounts-none (saturating (acc +ℤ f.amount)) frozen resource,
  add_amounts-single acc frozen resource amount,
)

pub entries-add_frozen_v2 :
    (frozen : List FreezeV2) (resource amount delta : ℤ)
    → entries resource frozen ≡ amount ∷ []
    → entries resource (add_frozen_v2 frozen resource delta) ≡ add_i64 amount delta ∷ []
unfolding add_frozen_v2
entries-add_frozen_v2 [] resource amount delta e = ground arith
entries-add_frozen_v2 (f ∷ frozen) resource amount delta e =
    ground (arith, e, entries-add_frozen_v2 frozen resource amount delta)

pub owner_delegated-add :
    (account : Account) (resource delta : ℤ)
    → owner_delegated (add_owner_delegated account resource delta) resource
      ≡ add_i64 (owner_delegated account resource) delta
unfolding owner_delegated add_owner_delegated resource_of
owner_delegated-add account resource delta = elim (Bool-cases (eqb_ℤ resource bandwidth)) [
  | inl e ↦ rw e refl
  | inr e ↦ rw e refl
]

pub frozen_v2-add :
    (account : Account) (resource delta : ℤ)
    → (add_owner_delegated account resource delta).frozen_v2 ≡ account.frozen_v2
unfolding add_owner_delegated
frozen_v2-add account resource delta = elim (Bool-cases (eqb_ℤ resource bandwidth)) [
  | inl e ↦ rw e refl
  | inr e ↦ rw e refl
]

pub receiver_acquired-add :
    (account : Account) (resource delta : ℤ)
    → receiver_acquired (add_receiver_acquired account resource delta) resource
      ≡ next_acquired (receiver_acquired account resource) delta
unfolding receiver_acquired add_receiver_acquired resource_of
receiver_acquired-add account resource delta = elim (Bool-cases (eqb_ℤ resource bandwidth)) [
  | inl e ↦ rw e refl
  | inr e ↦ rw e refl
]

pub rec_frozen-set :
    (rec : DelegatedResource) (resource value : ℤ)
    → rec_frozen (rec_set_frozen rec resource value) resource ≡ value
unfolding rec_frozen rec_set_frozen
rec_frozen-set rec resource value = elim (Bool-cases (eqb_ℤ resource bandwidth)) [
  | inl e ↦ rw e refl
  | inr e ↦ rw e refl
]

pub rec_frozen-set_expire :
    (rec : DelegatedResource) (resource time : ℤ)
    → rec_frozen (rec_set_expire rec resource time) resource ≡ rec_frozen rec resource
unfolding rec_frozen rec_set_expire
rec_frozen-set_expire rec resource time = elim (Bool-cases (eqb_ℤ resource bandwidth)) [
  | inl e ↦ rw e refl
  | inr e ↦ rw e refl
]

pub rec_frozen-new :
    (owner receiver : Bytes) (resource : ℤ)
    → rec_frozen (new_record owner receiver) resource ≡ pos 0
unfolding rec_frozen
rec_frozen-new owner receiver resource = elim (Bool-cases (eqb_ℤ resource bandwidth)) [
  | inl e ↦ rw e refl
  | inr e ↦ rw e refl
]

pub rec_frozen-empty :
    (rec : DelegatedResource) (resource : ℤ)
    → rec_is_empty rec ≡ true
    → rec_frozen rec resource ≡ pos 0
unfolding rec_frozen rec_is_empty
rec_frozen-empty rec resource e = ground arith
