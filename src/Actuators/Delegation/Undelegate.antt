-- ===== src/Actuators/Delegation/Undelegate.antt =====
-- `UnDelegateResourceActuator` of crates/actuators/src/delegate.rs.
use tron_rs.Prelude.{
  if◌then◌else◌, Bytes, bytes_eq, ℤ, pos, ltb_ℤ, leb_ℤ, eqb_ℤ, add_i64, sub_i64, Result, ok, ◌>>=◌,
  ◌>>◌, fail_if, ok_or, Bool, true, false, ◌&&◌, ◌||◌, not, Option, none, some,
}
use tron_rs.State.World.{
  World, Account, DelegatedResource, latest_timestamp, get_account, put_account, get_prop_i64,
}
use tron_rs.Actuators.{
  ActuatorError, invalid_address, owner_account_missing, account_not_exists, resource_code_error,
  invalid_receiver, delegate_to_self, no_delegation, undelegate_not_positive,
  insufficient_delegation, unlocked_missing, lift, parse_address, need_account, Outcome, try,
}
use tron_rs.Actuators
use tron_rs.Actuators.Delegation.{
  resource_valid, add_frozen_v2, add_owner_delegated, add_receiver_acquired, get_delegation,
  put_delegation, delete_delegation, rec_frozen, rec_set_frozen, rec_expire, rec_set_expire,
  rec_is_empty, or_new,
}

pub record UnDelegateResourceContract : Type 0 where
  pub owner_address : Bytes
  pub receiver_address : Bytes
  pub resource : ℤ
  pub balance : ℤ

abbrev pub is_none : {A : Type 0} → Option A → Bool
is_none none = true
is_none (some a) = false

-- What may be taken back: the unlocked amount, and the locked one past its time.
unfoldable pub available : Option DelegatedResource → Option DelegatedResource → ℤ → ℤ → ℤ
unfolding rec_frozen rec_expire
available unlock lock resource now =
    let first : ℤ = elim unlock [
      | none ↦ pos 0
      | some u ↦ add_i64 (pos 0) (rec_frozen u resource)
    ] in
    elim lock [
      | none ↦ first
      | some l ↦
          if ltb_ℤ (rec_expire l resource) now then add_i64 first (rec_frozen l resource) else first
    ]

unfoldable pub validate : World → UnDelegateResourceContract → Result ActuatorError ℤ
unfolding parse_address need_account get_delegation available resource_valid
validate w c = do
  owner ← parse_address c.owner_address invalid_address
  account ← need_account w owner (Actuators.validate account_not_exists)
  receiver ← parse_address c.receiver_address invalid_receiver
  fail_if (bytes_eq receiver owner) (Actuators.validate delegate_to_self)
  unlock ← get_delegation w owner receiver false
  lock ← get_delegation w owner receiver true
  fail_if (is_none unlock && is_none lock) (Actuators.validate no_delegation)
  fail_if (leb_ℤ c.balance (pos 0)) (Actuators.validate undelegate_not_positive)
  fail_if (not (resource_valid c.resource)) (Actuators.validate resource_code_error)
  let here = available unlock lock c.resource (get_prop_i64 w latest_timestamp)
  fail_if (ltb_ℤ here c.balance) (Actuators.validate insufficient_delegation)
  ok (pos 0)

-- An empty record is deleted.
unfoldable pub store_or_delete : Bytes → Bytes → Bool → DelegatedResource → World → World
unfolding rec_is_empty delete_delegation put_delegation
store_or_delete owner receiver lock rec w =
    if rec_is_empty rec
    then delete_delegation owner receiver lock w
    else put_delegation owner receiver lock rec w

-- The locked amount has been there for its time.
unfoldable pub is_matured : DelegatedResource → ℤ → ℤ → Bool
unfolding rec_frozen rec_expire
is_matured lock resource now = not (
    eqb_ℤ (rec_frozen lock resource) (pos 0)
    || eqb_ℤ (rec_expire lock resource) (pos 0)
    || leb_ℤ now (rec_expire lock resource))

-- The locked amount goes over to the unlocked record.
unfoldable pub merge : World → Bytes → Bytes → ℤ → DelegatedResource → DelegatedResource → World
unfolding rec_frozen rec_set_frozen rec_set_expire put_delegation store_or_delete
merge w owner receiver resource lock unlock =
    let merged = add_i64 (rec_frozen unlock resource) (rec_frozen lock resource) in
    let w₁ = put_delegation owner receiver false (rec_set_frozen unlock resource merged) w in
    let left = rec_set_expire (rec_set_frozen lock resource (pos 0)) resource (pos 0) in
    store_or_delete owner receiver true left w₁

unfoldable pub merge_found :
    World → Bytes → Bytes → ℤ → ℤ → Option DelegatedResource → Result ActuatorError World
unfolding is_matured get_delegation merge
merge_found w owner receiver resource now none = ok w
merge_found w owner receiver resource now (some lock) =
    if is_matured lock resource now
    then (do
      found ← get_delegation w owner receiver false
      ok (merge w owner receiver resource lock (or_new owner receiver found)))
    else ok w

unfoldable pub merge_expired_lock : World → Bytes → Bytes → ℤ → ℤ → Result ActuatorError World
unfolding get_delegation merge_found
merge_expired_lock w owner receiver resource now = do
  found ← get_delegation w owner receiver true
  merge_found w owner receiver resource now found

-- The receiver's account, where there is one.
unfoldable pub take_acquired : World → Bytes → ℤ → ℤ → Option Account → World
unfolding put_account add_receiver_acquired
take_acquired w receiver resource balance none = w
take_acquired w receiver resource balance (some account) =
    put_account receiver (add_receiver_acquired account resource (sub_i64 (pos 0) balance)) w

unfoldable pub shrink : DelegatedResource → ℤ → ℤ → DelegatedResource
unfolding rec_set_frozen rec_frozen
shrink rec resource balance =
    rec_set_frozen rec resource (sub_i64 (rec_frozen rec resource) balance)

-- The owner's account, with the amount moved from delegated to frozen.
unfoldable pub take_back : Account → ℤ → ℤ → Account
unfolding add_owner_delegated add_frozen_v2
take_back account resource balance =
    let less = add_owner_delegated account resource (sub_i64 (pos 0) balance) in
    record less { frozen_v2 = add_frozen_v2 less.frozen_v2 resource balance }

-- From the merged records on.
unfoldable pub execute_merged : World → Bytes → Bytes → ℤ → ℤ → Outcome
unfolding get_account lift take_acquired get_delegation shrink store_or_delete need_account
    take_back put_account
execute_merged w owner receiver resource balance = try w (lift (get_account w receiver)) λ other.
    let w₁ = take_acquired w receiver resource balance other in
    try w₁
      (get_delegation w₁ owner receiver false >>= λ found.
        ok_or found (Actuators.execute unlocked_missing))
      λ unlock.
        let w₂ = store_or_delete owner receiver false (shrink unlock resource balance) w₁ in
        try w₂ (need_account w₂ owner (Actuators.execute owner_account_missing))
          λ account. (put_account owner (take_back account resource balance) w₂, ok (pos 0))

unfoldable pub execute : World → UnDelegateResourceContract → Outcome
unfolding parse_address merge_expired_lock execute_merged
execute w c = try w (parse_address c.owner_address invalid_address) λ owner.
    try w (parse_address c.receiver_address invalid_receiver) λ receiver.
      let now = get_prop_i64 w latest_timestamp in
      try w (merge_expired_lock w owner receiver c.resource now)
        λ merged. execute_merged merged owner receiver c.resource c.balance
