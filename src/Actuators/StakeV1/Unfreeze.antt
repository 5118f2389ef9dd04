-- ===== src/Actuators/StakeV1/Unfreeze.antt =====
-- `UnfreezeBalanceActuator` of crates/actuators/src/freeze_v1.rs.
use tron_rs.Prelude.{
  ◌==◌, if◌then◌else◌, length, keep_if, Bytes, ℤ, pos, leb_ℤ, eqb_ℤ, Result, ok, err, ◌>>=◌, ◌>>◌,
  fail_if, Bool, false, ◌||◌, not, Option, none, some, List, [], ◌∷◌,
}
use tron_rs.State.World.{World, Frozen, Account, latest_timestamp, put_account, get_prop_i64}
use tron_rs.Actuators.{
  ActuatorError, invalid_address, owner_account_missing, account_not_exists, resource_code_error,
  no_frozen_balance, receiver_not_supported, not_yet_unfreezable, parse_address, need_account,
  Outcome, try, credit,
}
use tron_rs.Actuators
use tron_rs.Actuators.Stake.{bandwidth, energy, tron_power}
use tron_rs.Actuators.Delegation.{resource_of}
use tron_rs.Actuators.StakeV1.{amount_of, sum_frozen, energy_frozen, frozen_balance, change_weight}

pub record UnfreezeBalanceContract : Type 0 where
  pub owner_address : Bytes
  pub resource : ℤ
  pub receiver_address : Bytes

abbrev pub is_due : ℤ → Frozen → Bool
is_due now f = leb_ℤ f.expire_time now

abbrev pub any_due : ℤ → List Frozen → Bool
any_due now [] = false
any_due now (f ∷ frozen) = is_due now f || any_due now frozen

-- An entry of energy or TRON power: something is frozen, and its time has come.
unfoldable pub check_entry : ℤ → Option Frozen → Result ActuatorError (Unit {0})
check_entry now none = err (Actuators.validate no_frozen_balance)
check_entry now (some f) = do
  fail_if (leb_ℤ f.frozen_balance (pos 0)) (Actuators.validate no_frozen_balance)
  fail_if (not (is_due now f)) (Actuators.validate not_yet_unfreezable)

unfoldable pub check_due : Account → ℤ → ℤ → Result ActuatorError (Unit {0})
unfolding check_entry energy_frozen
check_due account resource now =
    if eqb_ℤ resource bandwidth
    then (do
      fail_if (length account.frozen == 0) (Actuators.validate no_frozen_balance)
      fail_if (not (any_due now account.frozen)) (Actuators.validate not_yet_unfreezable))
    else if eqb_ℤ resource energy
    then check_entry now (energy_frozen account)
    else if eqb_ℤ resource tron_power
    then check_entry now account.tron_power
    else err (Actuators.validate resource_code_error)

unfoldable pub validate : World → UnfreezeBalanceContract → Result ActuatorError ℤ
unfolding parse_address need_account check_due
validate w c = do
  owner ← parse_address c.owner_address invalid_address
  fail_if (not (length c.receiver_address == 0)) (Actuators.validate receiver_not_supported)
  account ← need_account w owner (Actuators.validate account_not_exists)
  check_due account c.resource (get_prop_i64 w latest_timestamp)
  ok (pos 0)

-- The account without what is taken out, and how much that is.
unfoldable pub release : Account → ℤ → ℤ → Account × ℤ
unfolding sum_frozen energy_frozen resource_of
release account resource now =
    if eqb_ℤ resource bandwidth
    then (
      record account { frozen = keep_if (λ f. not (is_due now f)) account.frozen },
      sum_frozen (pos 0) (keep_if (is_due now) account.frozen),
    )
    else if eqb_ℤ resource energy
    then (
      record account {
        account_resource = some (record (resource_of account) { frozen_balance_for_energy = none });
      },
      amount_of (energy_frozen account),
    )
    else if eqb_ℤ resource tron_power
    then (record account { tron_power = none }, amount_of account.tron_power)
    else (account, pos 0)

unfoldable pub unfreeze : Account → ℤ → ℤ → Result ActuatorError Account
unfolding release credit
unfreeze account resource now = do
  let (rest, amount) = release account resource now
  balance ← credit account.balance amount
  ok (record rest { balance = balance })

unfoldable pub execute : World → UnfreezeBalanceContract → Outcome
unfolding parse_address need_account unfreeze put_account change_weight frozen_balance
execute w c = try w (parse_address c.owner_address invalid_address) λ owner.
    try w (need_account w owner (Actuators.execute owner_account_missing)) λ account.
      try w (unfreeze account c.resource (get_prop_i64 w latest_timestamp)) λ after.
        let old = frozen_balance account c.resource in
        let new = frozen_balance after c.resource in
        (change_weight c.resource old new (put_account owner after w), ok (pos 0))
