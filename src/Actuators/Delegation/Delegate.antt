-- ===== src/Actuators/Delegation/Delegate.antt =====
-- `DelegateResourceActuator` of crates/actuators/src/delegate.rs.
use tron_rs.Prelude.{
  if◌then◌else◌, Bytes, bytes_eq, ℤ, pos, ltb_ℤ, eqb_ℤ, add_i64, sub_i64, mul_i64, Result, ok,
  ◌>>=◌, ◌>>◌, fail_if, Bool, true, not, Option, none, some,
}
use tron_rs.State.World.{
  World, Account, DelegatedResource, latest_timestamp, put_account, get_prop_i64,
}
use tron_rs.Actuators.{
  ActuatorError, invalid_address, owner_account_missing, account_not_exists, resource_code_error,
  delegate_below_one_trx, over_available, invalid_receiver, delegate_to_self, receiver_missing,
  negative_lock_period, shorter_than_last_lock, receiver_is_contract, parse_address, need_account,
  Outcome, try,
}
use tron_rs.Actuators
use tron_rs.Actuators.Stake.{trx_precision}
use tron_rs.Actuators.Delegation.{
  resource_valid, block_produced_interval_ms, default_lock_period_blocks, frozen_v2_amount,
  add_frozen_v2, add_owner_delegated, add_receiver_acquired, get_delegation, put_delegation,
  rec_frozen, rec_set_frozen, rec_expire, rec_set_expire, or_new,
}

pub record DelegateResourceContract : Type 0 where
  pub owner_address : Bytes
  pub receiver_address : Bytes
  pub resource : ℤ
  pub balance : ℤ
  pub lock : Bool
  pub lock_period : ℤ

-- `AccountType::Contract`
abbrev pub contract_type : ℤ
contract_type = pos 2

unfoldable pub lock_period_blocks : DelegateResourceContract → ℤ
lock_period_blocks c =
    if eqb_ℤ c.lock_period (pos 0) then default_lock_period_blocks else c.lock_period

-- A new lock is not shorter than what is left of the last one.
unfoldable pub check_remain :
    World → DelegateResourceContract → Option DelegatedResource → Result ActuatorError (Unit {0})
unfolding lock_period_blocks rec_expire
check_remain w c none = ok tt
check_remain w c (some existing) =
    let remain = sub_i64 (rec_expire existing c.resource) (get_prop_i64 w latest_timestamp) in
    let period = mul_i64 (lock_period_blocks c) block_produced_interval_ms in
    fail_if (ltb_ℤ period remain) (Actuators.validate shorter_than_last_lock)

unfoldable pub check_lock :
    World → DelegateResourceContract → Bytes → Bytes → Result ActuatorError (Unit {0})
unfolding check_remain get_delegation
check_lock w c owner receiver =
    if c.lock
    then (do
      fail_if (ltb_ℤ (lock_period_blocks c) (pos 0)) (Actuators.validate negative_lock_period)
      existing ← get_delegation w owner receiver true
      check_remain w c existing)
    else ok tt

unfoldable pub validate : World → DelegateResourceContract → Result ActuatorError ℤ
unfolding parse_address need_account resource_valid frozen_v2_amount check_lock
validate w c = do
  owner ← parse_address c.owner_address invalid_address
  account ← need_account w owner (Actuators.validate account_not_exists)
  fail_if (ltb_ℤ c.balance trx_precision) (Actuators.validate delegate_below_one_trx)
  fail_if (not (resource_valid c.resource)) (Actuators.validate resource_code_error)
  fail_if (ltb_ℤ (frozen_v2_amount account c.resource) c.balance)
      (Actuators.validate over_available)
  receiver ← parse_address c.receiver_address invalid_receiver
  fail_if (bytes_eq receiver owner) (Actuators.validate delegate_to_self)
  receiver_account ← need_account w receiver (Actuators.validate account_not_exists)
  check_lock w c owner receiver
  fail_if (eqb_ℤ receiver_account.account_type contract_type)
      (Actuators.validate receiver_is_contract)
  ok (pos 0)

-- The owner's account, with the amount moved from frozen to delegated.
unfoldable pub delegate_out : Account → ℤ → ℤ → Account
unfolding add_frozen_v2 add_owner_delegated
delegate_out account resource balance =
    let taken = record account {
      frozen_v2 = add_frozen_v2 account.frozen_v2 resource (sub_i64 (pos 0) balance);
    } in
    add_owner_delegated taken resource balance

unfoldable pub expire_time : World → DelegateResourceContract → ℤ
unfolding lock_period_blocks
expire_time w c =
    if c.lock
    then add_i64 (get_prop_i64 w latest_timestamp)
        (mul_i64 (lock_period_blocks c) block_produced_interval_ms)
    else pos 0

-- The record with the amount added, until the new time.
unfoldable pub extend : DelegatedResource → ℤ → ℤ → ℤ → DelegatedResource
unfolding rec_set_expire rec_set_frozen rec_frozen
extend rec resource balance expire =
    rec_set_expire (rec_set_frozen rec resource (add_i64 (rec_frozen rec resource) balance))
      resource expire

unfoldable pub execute : World → DelegateResourceContract → Outcome
unfolding parse_address need_account delegate_out put_account add_receiver_acquired get_delegation
    expire_time extend put_delegation
execute w c = try w (parse_address c.owner_address invalid_address) λ owner.
    try w (parse_address c.receiver_address invalid_receiver) λ receiver.
      try w (need_account w owner (Actuators.execute owner_account_missing)) λ account.
        let w₁ = put_account owner (delegate_out account c.resource c.balance) w in
        try w₁ (need_account w₁ receiver (Actuators.execute receiver_missing)) λ other.
          let w₂ = put_account receiver (add_receiver_acquired other c.resource c.balance) w₁ in
          try w₂ (get_delegation w₂ owner receiver c.lock) λ found.
            let rec = extend (or_new owner receiver found) c.resource c.balance (expire_time w c) in
            (put_delegation owner receiver c.lock rec w₂, ok (pos 0))
