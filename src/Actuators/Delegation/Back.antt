-- ===== src/Actuators/Delegation/Back.antt =====
-- A validated `UnDelegateResourceActuator` of crates/actuators/src/delegate.rs takes its amount back,
-- where nothing is locked.
use tron_rs.Prelude.Endian.{bytes_eq_refl}
use tron_rs.Prelude.{
  if◌then◌else◌, Bool-cases, Bytes, bytes_eq, ℤ, pos, ◌+ℤ◌, ◌-ℤ◌, ◌≤ℤ◌, ltb_ℤ, int_laws, i64_max,
  IsI64, add_i64, sub_i64, add_i64-in, sub_i64-in, ok, ◌≡◌, refl, sym, ap, ◌∙◌, inl, inr, Bool,
  true, false, Option, none, some, [], ◌∷◌, arith,
}
use tron_rs.State.World.{World, Account, DelegatedResource, get_account, read_cell, put_account}
use tron_rs.Actuators.{
  invalid_address, invalid_receiver, lift, parse_address, need_account, owner_account_missing,
}
use tron_rs.Actuators
use tron_rs.Actuators.Outcomes.{need_account-known}
use tron_rs.Actuators.Delegation.{
  get_delegation, rec_frozen, next_acquired, delegation_key, put_delegation, delete_delegation,
  rec_is_empty, or_new, add_frozen_v2, owner_delegated, add_owner_delegated, add_receiver_acquired,
}
use tron_rs.Actuators.Delegation.Undelegate.{
  UnDelegateResourceContract, validate, execute, take_back, available, store_or_delete, merge_found,
  merge_expired_lock, take_acquired, shrink, execute_merged,
}
use tron_rs.Actuators.Delegation.Amounts.{
  Position, rec_frozen-new, rec_frozen-empty, IsPosition, returned_by, entries,
  entries-add_frozen_v2, owner_delegated-add, frozen_v2-add, rec_frozen-set,
}
use tron_rs.Actuators.Delegation.Moves.{get_delegation-put_account, put_account-other, frozen_apart}

-- What `validate` has checked of the contract, when nothing is locked.
pub accepted :
    (w : World) (c : UnDelegateResourceContract) (account : Account)
    (found : Option DelegatedResource) (r : ℤ)
    → get_account w c.owner_address ≡ ok (some account)
    → get_delegation w c.owner_address c.receiver_address false ≡ ok found
    → get_delegation w c.owner_address c.receiver_address true ≡ ok none
    → validate w c ≡ ok r
    → (parse_address c.owner_address invalid_address ≡ ok c.owner_address)
      × (parse_address c.receiver_address invalid_receiver ≡ ok c.receiver_address)
      × (pos 1 ≤ℤ c.balance)
      × ((rec : DelegatedResource) × ((found ≡ some rec)
            × (c.balance ≤ℤ add_i64 (pos 0) (rec_frozen rec c.resource))))
unfolding validate parse_address need_account lift available
accepted w c account none r has_owner unlocked unlock run = ground arith
accepted w c account (some rec) r has_owner unlocked unlock run =
    (ground arith, ground arith, ground arith, (rec, (refl, ground arith)))

-- What is left of the record.
abbrev pub left_of : DelegatedResource → Option DelegatedResource
left_of rec = if rec_is_empty rec then none else some rec

pub get_delegation-store :
    (w : World) (owner receiver : Bytes) (lock : Bool) (rec : DelegatedResource)
    → get_delegation (store_or_delete owner receiver lock rec w) owner receiver lock
      ≡ ok (left_of rec)
unfolding store_or_delete get_delegation put_delegation delete_delegation lift read_cell
get_delegation-store w owner receiver lock rec =
    let same = bytes_eq_refl (delegation_key owner receiver lock) in
    elim (Bool-cases (rec_is_empty rec)) [ inl e ↦ rw (e, same) refl | inr e ↦ rw (e, same) refl ]

pub get_account-store :
    (w : World) (a owner receiver : Bytes) (lock : Bool) (rec : DelegatedResource)
    → get_account (store_or_delete owner receiver lock rec w) a ≡ get_account w a
unfolding store_or_delete get_account put_delegation delete_delegation
get_account-store w a owner receiver lock rec = elim (Bool-cases (rec_is_empty rec)) [
  | inl e ↦ rw e refl
  | inr e ↦ rw e refl
]

pub rec_frozen-left_of :
    (owner receiver : Bytes) (rec : DelegatedResource) (resource : ℤ)
    → rec_frozen (or_new owner receiver (left_of rec)) resource ≡ rec_frozen rec resource
rec_frozen-left_of owner receiver rec resource = elim (Bool-cases (rec_is_empty rec)) [
  | inl e ↦ rw e (rec_frozen-new owner receiver resource ∙ sym (rec_frozen-empty rec resource e))
  | inr e ↦ rw e refl
]

negated :
    (balance : ℤ)
    → (pos 0 ≤ℤ balance) × (balance ≤ℤ i64_max)
    → sub_i64 (pos 0) balance ≡ pos 0 -ℤ balance
negated balance b = sub_i64-in (pos 0) balance (omega (int_laws, b), omega (int_laws, b))

add_negated :
    (amount balance : ℤ)
    → (pos 0 ≤ℤ balance) × (balance ≤ℤ amount) × (amount ≤ℤ i64_max)
    → add_i64 amount (sub_i64 (pos 0) balance) ≡ amount -ℤ balance
add_negated amount balance b =
    let same : amount +ℤ (pos 0 -ℤ balance) ≡ amount -ℤ balance = omega int_laws in
    ap (add_i64 amount) (negated balance (b.0, omega (int_laws, b)))
    ∙ add_i64-in amount (pos 0 -ℤ balance) (omega (int_laws, b), omega (int_laws, b))
    ∙ same

pub next_acquired-shrinks :
    (cur balance : ℤ)
    → (pos 0 ≤ℤ balance) × (balance ≤ℤ cur) × (cur ≤ℤ i64_max)
    → next_acquired cur (sub_i64 (pos 0) balance) ≡ cur -ℤ balance
unfolding next_acquired
next_acquired-shrinks cur balance b =
    let n = negated balance (b.0, omega (int_laws, b)) in
    let double : sub_i64 (pos 0) (pos 0 -ℤ balance) ≡ balance =
      sub_i64-in (pos 0) (pos 0 -ℤ balance) (omega (int_laws, b), omega (int_laws, b))
      ∙ omega int_laws in
    let floor : ltb_ℤ cur (sub_i64 (pos 0) (sub_i64 (pos 0) balance)) ≡ false =
      rw (n, double) (ground arith) in
    elim (Bool-cases (ltb_ℤ (sub_i64 (pos 0) balance) (pos 0))) [
      | inl e ↦ rw (e, floor) (add_negated cur balance b)
      | inr e ↦ rw e (add_negated cur balance b)
    ]

pub executed :
    (w : World) (c : UnDelegateResourceContract) (account other : Account) (rec : DelegatedResource)
    → parse_address c.owner_address invalid_address ≡ ok c.owner_address
    → parse_address c.receiver_address invalid_receiver ≡ ok c.receiver_address
    → bytes_eq c.receiver_address c.owner_address ≡ false
    → get_account w c.owner_address ≡ ok (some account)
    → get_account w c.receiver_address ≡ ok (some other)
    → get_delegation w c.owner_address c.receiver_address false ≡ ok (some rec)
    → get_delegation w c.owner_address c.receiver_address true ≡ ok none
    → let into = add_receiver_acquired other c.resource (sub_i64 (pos 0) c.balance) in
      let w₁ = put_account c.receiver_address into w in
      let w₂ =
        store_or_delete c.owner_address c.receiver_address false
          (shrink rec c.resource c.balance)
          w₁ in
      execute w c
      ≡ (put_account c.owner_address (take_back account c.resource c.balance) w₂, ok (pos 0))
unfolding execute merge_expired_lock merge_found execute_merged take_acquired
executed w c account other rec owner receiver apart has_owner has_receiver unlocked locked =
    let into = add_receiver_acquired other c.resource (sub_i64 (pos 0) c.balance) in
    let w₁ = put_account c.receiver_address into w in
    let rec' = shrink rec c.resource c.balance in
    let w₂ = store_or_delete c.owner_address c.receiver_address false rec' w₁ in
    let record_read =
      get_delegation-put_account w c.receiver_address c.owner_address c.receiver_address false into
      ∙ unlocked in
    let here =
      get_account-store w₁ c.owner_address c.owner_address c.receiver_address false rec'
      ∙ put_account-other w c.receiver_address c.owner_address into apart
      ∙ has_owner in
    rw
      (
        owner,
        receiver,
        locked,
        has_receiver,
        record_read,
        need_account-known w₂ c.owner_address account (Actuators.execute owner_account_missing)
            here,
      )
      refl

pub returned-IsPosition :
    (p : Position) (balance : ℤ)
    → IsPosition p
    → (pos 0 ≤ℤ balance) × (balance ≤ℤ p.recorded)
    → IsPosition (returned_by p balance)
returned-IsPosition p balance h b = record {
  frozen_min = omega (int_laws, b, h.frozen_min);
  recorded_min = omega (int_laws, b);
  owner_has = omega (int_laws, h.owner_has);
  receiver_has = omega (int_laws, h.receiver_has);
  owner_max = omega (int_laws, h.owner_max);
  receiver_max = omega (int_laws, h.receiver_max);
}

pub delegated_back :
    (account : Account) (resource balance amount : ℤ)
    → owner_delegated account resource ≡ amount
    → (pos 0 ≤ℤ balance) × (balance ≤ℤ amount) × (amount ≤ℤ i64_max)
    → owner_delegated (take_back account resource balance) resource ≡ amount -ℤ balance
unfolding take_back
delegated_back account resource balance amount e b =
    let less = add_owner_delegated account resource (sub_i64 (pos 0) balance) in
    frozen_apart less (add_frozen_v2 less.frozen_v2 resource balance) resource
    ∙ owner_delegated-add account resource (sub_i64 (pos 0) balance)
    ∙ ap (λ x. add_i64 x (sub_i64 (pos 0) balance)) e
    ∙ add_negated amount balance b

pub frozen_back :
    (account : Account) (resource balance amount : ℤ)
    → entries resource account.frozen_v2 ≡ amount ∷ []
    → IsI64 (amount +ℤ balance)
    → entries resource (take_back account resource balance).frozen_v2 ≡ (amount +ℤ balance) ∷ []
unfolding take_back
frozen_back account resource balance amount e room =
    let less = add_owner_delegated account resource (sub_i64 (pos 0) balance) in
    let same =
      ap (entries resource) (frozen_v2-add account resource (sub_i64 (pos 0) balance)) ∙ e in
    entries-add_frozen_v2 less.frozen_v2 resource amount balance same
    ∙ ap (λ x. x ∷ []) (add_i64-in amount balance room)

pub rec_frozen-shrink :
    (rec : DelegatedResource) (resource balance amount : ℤ)
    → rec_frozen rec resource ≡ amount
    → (pos 0 ≤ℤ balance) × (balance ≤ℤ amount) × (amount ≤ℤ i64_max)
    → rec_frozen (shrink rec resource balance) resource ≡ amount -ℤ balance
unfolding shrink
rec_frozen-shrink rec resource balance amount e b =
    rec_frozen-set rec resource (sub_i64 (rec_frozen rec resource) balance)
    ∙ ap (λ x. sub_i64 x balance) e
    ∙ sub_i64-in amount balance (omega (int_laws, b), omega (int_laws, b))
