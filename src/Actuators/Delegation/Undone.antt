-- ===== src/Actuators/Delegation/Undone.antt =====
-- A delegation of crates/actuators/src/delegate.rs that is taken back at once.
use tron_rs.Prelude.Endian.{bytes_eq_sym}
use mathlib.Core.Path.{subst}
use tron_rs.Prelude.{
  Bytes, bytes_eq, ℤ, pos, ◌+ℤ◌, ◌-ℤ◌, ◌≤ℤ◌, ltb_ℤ, leb_ℤ, int_laws, add_i64, ok, ◌≡◌, refl, sym,
  ap, ◌∙◌, Bool, true, false, Option, none, some, [], ◌∷◌, ◌++◌, arith,
}
use tron_rs.State.World.{World, Account, DelegatedResource, get_account, put_account}
use tron_rs.Actuators.{
  invalid_address, account_not_exists, invalid_receiver, lift, parse_address, need_account,
}
use tron_rs.Actuators
use tron_rs.Actuators.Outcomes.{need_account-known}
use tron_rs.Actuators.Delegation.{
  delegation_key, get_delegation, put_delegation, rec_frozen, or_new, resource_valid,
  add_receiver_acquired,
}
use tron_rs.Actuators.Delegation.Delegate.{
  DelegateResourceContract, delegate_out, validate, expire_time, extend, execute,
}
use tron_rs.Actuators.Delegation.Delegate
use tron_rs.Actuators.Delegation.Undelegate.{UnDelegateResourceContract, available}
use tron_rs.Actuators.Delegation.Undelegate
use tron_rs.Actuators.Delegation.Amounts.{
  Position, IsPosition, rec_frozen-new, delegated_by, returned_by,
}
use tron_rs.Actuators.Delegation.Moves.{
  Holds, get_delegation-put_account, accepted, executed, delegate_refines,
}
use tron_rs.Actuators.Delegation.Returned.{undelegate_refines, zero_add_i64, recorded_in}
use tron_rs.Actuators.Delegation.Moves

bytes_eq-prefix : (u x y : Bytes) → bytes_eq (u ++ x) (u ++ y) ≡ bytes_eq x y
unfolding bytes_eq
bytes_eq-prefix [] x y = refl
bytes_eq-prefix (a ∷ u) x y = ground (arith, bytes_eq-prefix u x y)

-- The two locks are apart.
locks_apart :
    (owner receiver : Bytes)
    → bytes_eq (delegation_key owner receiver false) (delegation_key owner receiver true) ≡ false
unfolding delegation_key bytes_eq
locks_apart owner receiver =
    bytes_eq-prefix owner (receiver ++ (0 ∷ [])) (receiver ++ (1 ∷ []))
    ∙ bytes_eq-prefix receiver (0 ∷ []) (1 ∷ [])
    ∙ refl

get_delegation-other_lock :
    (w : World) (owner receiver : Bytes) (lock : Bool) (rec : DelegatedResource)
    → lock ≡ false
    → get_delegation (put_delegation owner receiver lock rec w) owner receiver true
      ≡ get_delegation w owner receiver true
unfolding get_delegation put_delegation
get_delegation-other_lock w owner receiver true rec e = ground arith
get_delegation-other_lock w owner receiver false rec e = rw (locks_apart owner receiver) refl

not_none :
    (owner receiver : Bytes) (resource amount : ℤ)
    → pos 1 ≤ℤ amount
    → rec_frozen (or_new owner receiver none) resource ≡ amount
    → ⊥
not_none owner receiver resource amount h e =
    let z : pos 1 ≤ℤ pos 0 =
      subst (λ x. pos 1 ≤ℤ x) (sym e ∙ rec_frozen-new owner receiver resource) h in
    omega (arith, z)

-- A return that the record covers is validated, where nothing is locked.
covered_return :
    (w : World) (c : UnDelegateResourceContract) (p : Position) (found : Option DelegatedResource)
    (account : Account)
    → parse_address c.owner_address invalid_address ≡ ok c.owner_address
    → parse_address c.receiver_address invalid_receiver ≡ ok c.receiver_address
    → bytes_eq c.receiver_address c.owner_address ≡ false
    → get_account w c.owner_address ≡ ok (some account)
    → get_delegation w c.owner_address c.receiver_address false ≡ ok found
    → get_delegation w c.owner_address c.receiver_address true ≡ ok none
    → rec_frozen (or_new c.owner_address c.receiver_address found) c.resource ≡ p.recorded
    → IsPosition p
    → resource_valid c.resource ≡ true
    → (pos 1 ≤ℤ c.balance) × (c.balance ≤ℤ p.recorded)
    → Undelegate.validate w c ≡ ok (pos 0)
unfolding Undelegate.validate available
covered_return w c p none account owner receiver apart has_owner unlocked locked recorded q usable
      b =
    absurd (
      not_none c.owner_address c.receiver_address c.resource p.recorded (omega (int_laws, b))
        recorded)
covered_return w c p (some rec) account owner receiver apart has_owner unlocked locked recorded q
      usable b =
    let here : add_i64 (pos 0) (rec_frozen rec c.resource) ≡ p.recorded =
      ap (add_i64 (pos 0)) recorded ∙ zero_add_i64 p.recorded (recorded_in p q) in
    let above : leb_ℤ c.balance (pos 0) ≡ false = ground (arith, b) in
    let enough : ltb_ℤ p.recorded c.balance ≡ false = ground (arith, b) in
    rw
      (
        owner,
        need_account-known w c.owner_address account (Actuators.validate account_not_exists)
            has_owner,
        receiver,
        apart,
        unlocked,
        locked,
        above,
        usable,
        here,
        enough,
      )
      refl

usable_resource :
    (w : World) (c : DelegateResourceContract) (account : Account) (r : ℤ)
    → get_account w c.owner_address ≡ ok (some account)
    → Delegate.validate w c ≡ ok r
    → resource_valid c.resource ≡ true
unfolding Delegate.validate parse_address need_account lift
usable_resource w c account r found run = ground arith

-- The same amount between the same accounts.
abbrev pub return_of : DelegateResourceContract → UnDelegateResourceContract
return_of c = record {
  owner_address = c.owner_address;
  receiver_address = c.receiver_address;
  resource = c.resource;
  balance = c.balance;
}

there_and_back : (p : Position) (balance : ℤ) → returned_by (delegated_by p balance) balance ≡ p
there_and_back p balance =
    let back : (x : ℤ) → x -ℤ balance +ℤ balance ≡ x = λ x. omega int_laws in
    let forth : (x : ℤ) → x +ℤ balance -ℤ balance ≡ x = λ x. omega int_laws in
    rw (back p.frozen, forth p.delegated, forth p.acquired, forth p.recorded) refl

still_unlocked :
    (w : World) (c : DelegateResourceContract) (p : Position) (r : ℤ)
    → Holds w c.owner_address c.receiver_address c.resource c.lock p
    → c.lock ≡ false
    → get_delegation w c.owner_address c.receiver_address true ≡ ok none
    → Delegate.validate w c ≡ ok r
    → get_delegation (Delegate.execute w c).0 c.owner_address c.receiver_address true ≡ ok none
still_unlocked w c p r h free locked run =
    let (owner, receiver, positive, enough) = Moves.accepted w c h.account r h.has_owner run in
    let w₁ = put_account c.owner_address (delegate_out h.account c.resource c.balance) w in
    let into = add_receiver_acquired h.other c.resource c.balance in
    let w₂ = put_account c.receiver_address into w₁ in
    let rec =
      extend (or_new c.owner_address c.receiver_address h.found) c.resource c.balance
        (expire_time w c) in
    rw
      (Moves.executed w c h.account h.other h.found owner receiver h.apart h.has_owner
        h.has_receiver h.record_read)
      (get_delegation-other_lock w₂ c.owner_address c.receiver_address c.lock rec free
        ∙ get_delegation-put_account w₁ c.receiver_address c.owner_address c.receiver_address true
            into
        ∙ get_delegation-put_account w c.owner_address c.owner_address c.receiver_address true
            (delegate_out h.account c.resource c.balance)
        ∙ locked)

-- A validated delegation without a lock, between accounts that have no locked one, may be taken back in
-- the world after it: the return is validated and succeeds, and the four amounts are then what they were.
pub delegate_then_undelegate :
    (w : World) (c : DelegateResourceContract) (p : Position) (r : ℤ)
    → Holds w c.owner_address c.receiver_address c.resource c.lock p
    → IsPosition p
    → c.lock ≡ false
    → get_delegation w c.owner_address c.receiver_address true ≡ ok none
    → Delegate.validate w c ≡ ok r
    → let w' = (Delegate.execute w c).0 in
      (Undelegate.validate w' (return_of c) ≡ ok (pos 0))
      × ((Undelegate.execute w' (return_of c)).1 ≡ ok (pos 0))
      × Holds
          (Undelegate.execute w' (return_of c)).0
          c.owner_address
          c.receiver_address
          c.resource
          false
          p
delegate_then_undelegate w c p r h q free locked run =
    let (owner, receiver, positive, enough) = Moves.accepted w c h.account r h.has_owner run in
    let w' = (Delegate.execute w c).0 in
    let (done, after, q', same) = delegate_refines w c p r h q run in
    let k =
      subst
        (λ l. Holds w' c.owner_address c.receiver_address c.resource l (delegated_by p c.balance))
        free after in
    let locked' = still_unlocked w c p r h free locked run in
    let apart' = bytes_eq_sym c.receiver_address c.owner_address ∙ h.apart in
    let usable = usable_resource w c h.account r h.has_owner run in
    let passes =
      covered_return w' (return_of c) (delegated_by p c.balance) k.found k.account owner receiver
        apart' k.has_owner k.record_read locked' k.recorded q' usable
        (positive, omega (int_laws, q.recorded_min)) in
    let (returned, held, q'') =
      undelegate_refines w' (return_of c) (delegated_by p c.balance) (pos 0) k q' locked' passes in
    (
      passes,
      returned,
      subst
          (λ x.
            Holds (Undelegate.execute w' (return_of c)).0 c.owner_address c.receiver_address
              c.resource false x)
          (there_and_back p c.balance) held,
    )
