-- ===== src/Actuators/Delegation/Returned.antt =====
-- An `UnDelegateResourceActuator` of crates/actuators/src/delegate.rs as the reverse of a delegation.
use mathlib.Core.Path.{subst}
use tron_rs.Prelude.{
  Bytes, ℤ, pos, ◌+ℤ◌, ◌≤ℤ◌, int_laws, i64_max, IsI64, add_i64, sub_i64, add_i64-in, ok, ◌≡◌, refl,
  sym, ap, ◌∙◌, true, false, Option, none, some,
}
use tron_rs.Prelude.Endian.{bytes_eq_sym}
use tron_rs.State.World.{World, DelegatedResource, put_account}
use tron_rs.Actuators.Delegation.{
  next_acquired, add_receiver_acquired, get_delegation, rec_frozen, or_new,
}
use tron_rs.Actuators.Delegation.Undelegate.{
  UnDelegateResourceContract, validate, execute, take_back, store_or_delete, shrink,
}
use tron_rs.Actuators.Delegation.Amounts.{Position, IsPosition, returned_by, receiver_acquired-add}
use tron_rs.Actuators.Delegation.Moves.{
  Holds, get_delegation-put_account, put_account-same, put_account-other,
}
use tron_rs.Actuators.Delegation.Back.{
  left_of, accepted, get_delegation-store, get_account-store, rec_frozen-left_of,
  next_acquired-shrinks, executed, returned-IsPosition, delegated_back, frozen_back,
  rec_frozen-shrink,
}

pub zero_add_i64 : (a : ℤ) → IsI64 a → add_i64 (pos 0) a ≡ a
zero_add_i64 a h =
    let e : pos 0 +ℤ a ≡ a = omega int_laws in add_i64-in (pos 0) a (subst IsI64 (sym e) h) ∙ e

pub recorded_in : (p : Position) → IsPosition p → IsI64 p.recorded
recorded_in p h =
    (omega (int_laws, h.recorded_min), omega (int_laws, h.frozen_min, h.owner_has, h.owner_max))

-- Each of the amounts that a return changes covers it, and stays in range.
covers :
    (p : Position) (balance : ℤ)
    → IsPosition p
    → pos 1 ≤ℤ balance
    → balance ≤ℤ p.recorded
    → ((pos 0 ≤ℤ balance) × (balance ≤ℤ p.delegated) × (p.delegated ≤ℤ i64_max))
      × ((pos 0 ≤ℤ balance) × (balance ≤ℤ p.acquired) × (p.acquired ≤ℤ i64_max))
      × ((pos 0 ≤ℤ balance) × (balance ≤ℤ p.recorded) × (p.recorded ≤ℤ i64_max))
      × IsI64 (p.frozen +ℤ balance)
covers p balance h positive le =
    let nonneg : pos 0 ≤ℤ balance = omega (int_laws, positive) in
    (
      (nonneg, omega (int_laws, le, h.owner_has), omega (int_laws, h.frozen_min, h.owner_max)),
      (
        nonneg,
        omega (int_laws, le, h.receiver_has),
        omega (int_laws, h.frozen_min, h.receiver_max),
      ),
      (nonneg, le, (recorded_in p h).1),
      (omega (int_laws, h.frozen_min, positive), omega (int_laws, le, h.owner_has, h.owner_max)),
    )

pub record_is :
    (owner receiver : Bytes) (found : Option DelegatedResource) (rec : DelegatedResource)
    (resource amount : ℤ)
    → found ≡ some rec
    → rec_frozen (or_new owner receiver found) resource ≡ amount
    → rec_frozen rec resource ≡ amount
record_is owner receiver found rec resource amount e r =
    sym (ap (λ x. rec_frozen (or_new owner receiver x) resource) e) ∙ r

-- Where nothing is locked between the two accounts, a validated return succeeds and does to the four
-- amounts the reverse of a delegation; the amounts stay well formed.
pub undelegate_refines :
    (w : World) (c : UnDelegateResourceContract) (p : Position) (r : ℤ)
    → Holds w c.owner_address c.receiver_address c.resource false p
    → IsPosition p
    → get_delegation w c.owner_address c.receiver_address true ≡ ok none
    → validate w c ≡ ok r
    → ((execute w c).1 ≡ ok (pos 0))
      × Holds
          (execute w c).0
          c.owner_address
          c.receiver_address
          c.resource
          false
          (returned_by p c.balance)
      × IsPosition (returned_by p c.balance)
undelegate_refines w c p r h q locked run =
    let (owner, receiver, positive, (rec, (is_rec, enough))) =
      accepted w c h.account h.found r h.has_owner h.record_read locked run in
    let recorded =
      record_is c.owner_address c.receiver_address h.found rec c.resource p.recorded is_rec
        h.recorded in
    let le : c.balance ≤ℤ p.recorded =
      subst (λ x. c.balance ≤ℤ x)
        (ap (add_i64 (pos 0)) recorded ∙ zero_add_i64 p.recorded (recorded_in p q)) enough in
    let b = covers p c.balance q positive le in
    let into = add_receiver_acquired h.other c.resource (sub_i64 (pos 0) c.balance) in
    let w₁ = put_account c.receiver_address into w in
    let rec' = shrink rec c.resource c.balance in
    let w₂ = store_or_delete c.owner_address c.receiver_address false rec' w₁ in
    let back = take_back h.account c.resource c.balance in
    let w₃ = put_account c.owner_address back w₂ in
    let apart' = bytes_eq_sym c.receiver_address c.owner_address ∙ h.apart in
    let unlocked = h.record_read ∙ ap ok is_rec in
    let after : Holds w₃ c.owner_address c.receiver_address c.resource false
        (returned_by p c.balance) =
      record {
        apart = h.apart;
        account = back;
        has_owner = put_account-same w₂ c.owner_address back;
        other = into;
        has_receiver =
            put_account-other w₂ c.owner_address c.receiver_address back h.apart
            ∙ get_account-store w₁ c.receiver_address c.owner_address c.receiver_address false rec'
            ∙ put_account-same w c.receiver_address into;
        found = left_of rec';
        record_read =
            get_delegation-put_account w₂ c.owner_address c.owner_address c.receiver_address false
              back
            ∙ get_delegation-store w₁ c.owner_address c.receiver_address false rec';
        frozen = frozen_back h.account c.resource c.balance p.frozen h.frozen b.3;
        delegated = delegated_back h.account c.resource c.balance p.delegated h.delegated b.0;
        acquired =
            receiver_acquired-add h.other c.resource (sub_i64 (pos 0) c.balance)
            ∙ ap (λ x. next_acquired x (sub_i64 (pos 0) c.balance)) h.acquired
            ∙ next_acquired-shrinks p.acquired c.balance b.1;
        recorded =
            rec_frozen-left_of c.owner_address c.receiver_address rec' c.resource
            ∙ rec_frozen-shrink rec c.resource c.balance p.recorded recorded b.2;
      } in
    rw
      (executed w c h.account h.other rec owner receiver apart' h.has_owner h.has_receiver unlocked
        locked)
      (refl, after, returned-IsPosition p c.balance q (b.2.0, le))
