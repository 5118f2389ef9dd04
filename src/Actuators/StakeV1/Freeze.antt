-- ===== src/Actuators/StakeV1/Freeze.antt =====
-- `FreezeBalanceActuator` of crates/actuators/src/freeze_v1.rs.
use tron_rs.Prelude.{
  ◌==◌, if◌then◌else◌, length, Bytes, ℤ, pos, ◌+ℤ◌, ◌*ℤ◌, ltb_ℤ, leb_ℤ, checked, saturating, Result,
  ok, ◌>>=◌, ◌>>◌, fail_if, ok_or, ◌&&◌, not,
}
use tron_rs.State.World.{
  World, Frozen, Account, PropKey, latest_timestamp, min_frozen_time, max_frozen_time, put_account,
  get_prop_i64,
}
use tron_rs.Actuators.{
  ActuatorError, invalid_address, long_overflow, balance_not_sufficient, owner_account_missing,
  account_not_exists, frozen_not_positive, below_one_trx, over_balance, resource_code_error,
  receiver_not_supported, bad_duration, parse_address, need_account, Outcome, try, debit, credit,
}
use tron_rs.Actuators
use tron_rs.Actuators.Stake.{trx_precision, is_resource}
use tron_rs.Actuators.Stake.Unfreeze.{frozen_period_ms}
use tron_rs.Actuators.StakeV1
use tron_rs.Actuators.StakeV1.{set_frozen, change_weight}

pub record FreezeBalanceContract : Type 0 where
  pub owner_address : Bytes
  pub frozen_balance : ℤ
  pub frozen_duration : ℤ
  pub resource : ℤ
  pub receiver_address : Bytes

-- The property, or 3 days.
unfoldable pub days_or_default : World → PropKey → ℤ
days_or_default w key = let days = get_prop_i64 w key in if ltb_ℤ (pos 0) days then days else pos 3

unfoldable pub validate : World → FreezeBalanceContract → Result ActuatorError ℤ
unfolding parse_address need_account days_or_default is_resource
validate w c = do
  owner ← parse_address c.owner_address invalid_address
  fail_if (not (length c.receiver_address == 0)) (Actuators.validate receiver_not_supported)
  account ← need_account w owner (Actuators.validate account_not_exists)
  fail_if (leb_ℤ c.frozen_balance (pos 0)) (Actuators.validate frozen_not_positive)
  fail_if (ltb_ℤ c.frozen_balance trx_precision) (Actuators.validate below_one_trx)
  fail_if (ltb_ℤ account.balance c.frozen_balance) (Actuators.validate over_balance)
  let min = days_or_default w min_frozen_time
  let max = days_or_default w max_frozen_time
  fail_if (not (leb_ℤ min c.frozen_duration && leb_ℤ c.frozen_duration max))
      (Actuators.validate bad_duration)
  fail_if (not (is_resource w c.resource)) (Actuators.validate resource_code_error)
  ok (pos 0)

-- The account with the amount moved from the balance into the entry, and the entry's new amount.
unfoldable pub freeze : Account → ℤ → ℤ → ℤ → Result ActuatorError (Account × ℤ)
unfolding StakeV1.frozen_balance credit debit set_frozen
freeze account resource amount expire = do
  new ← credit (StakeV1.frozen_balance account resource) amount
  balance ← debit account.balance amount balance_not_sufficient
  let entry : Frozen = record { frozen_balance = new; expire_time = expire }
  ok (set_frozen (record account { balance = balance }) resource entry, new)

unfoldable pub execute : World → FreezeBalanceContract → Outcome
unfolding parse_address need_account freeze put_account change_weight StakeV1.frozen_balance
execute w c = try w (parse_address c.owner_address invalid_address) λ owner.
    let period = saturating (c.frozen_duration *ℤ frozen_period_ms) in
    try w
      (ok_or (checked (get_prop_i64 w latest_timestamp +ℤ period))
        (Actuators.execute long_overflow))
      λ expire. try w (need_account w owner (Actuators.execute owner_account_missing)) λ account.
        try w (freeze account c.resource c.frozen_balance expire) λ frozen.
          let old = StakeV1.frozen_balance account c.resource in
          (change_weight c.resource old frozen.1 (put_account owner frozen.0 w), ok (pos 0))
