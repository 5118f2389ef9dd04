-- ===== src/Actuators/Stake/Freeze.antt =====
-- `FreezeBalanceV2Actuator` of crates/actuators/src/freeze_v2.rs.
use tron_rs.Prelude.{
  if◌then◌else◌, Bytes, ℤ, pos, quot_ℤ, ltb_ℤ, leb_ℤ, eqb_ℤ, Result, ok, ◌>>=◌, ◌>>◌, fail_if, not,
  List, [], ◌∷◌,
}
use tron_rs.State.World.{World, FreezeV2, Account, unfreeze_delay_days, put_account, get_prop_i64}
use tron_rs.Actuators.{
  ActuatorError, Outcome, invalid_address, balance_not_sufficient, owner_account_missing,
  account_not_exists, not_supported, frozen_not_positive, below_one_trx, over_balance,
  resource_code_error, parse_address, need_account, try, debit, credit,
}
use tron_rs.Actuators
use tron_rs.Actuators.Stake.{trx_precision, add_weight, is_resource}

pub record FreezeBalanceV2Contract : Type 0 where
  pub owner_address : Bytes
  pub frozen_balance : ℤ
  pub resource : ℤ

unfoldable pub validate : World → FreezeBalanceV2Contract → Result ActuatorError ℤ
unfolding parse_address need_account is_resource
validate w c = do
  fail_if (leb_ℤ (get_prop_i64 w unfreeze_delay_days) (pos 0)) (Actuators.validate not_supported)
  owner ← parse_address c.owner_address invalid_address
  account ← need_account w owner (Actuators.validate account_not_exists)
  fail_if (leb_ℤ c.frozen_balance (pos 0)) (Actuators.validate frozen_not_positive)
  fail_if (ltb_ℤ c.frozen_balance trx_precision) (Actuators.validate below_one_trx)
  fail_if (ltb_ℤ account.balance c.frozen_balance) (Actuators.validate over_balance)
  fail_if (not (is_resource w c.resource)) (Actuators.validate resource_code_error)
  ok (pos 0)

-- `checked_add` onto the first entry of the resource, or a new entry at the end.
unfoldable pub add_frozen : List FreezeV2 → ℤ → ℤ → Result ActuatorError (List FreezeV2)
unfolding credit
add_frozen [] resource amount = ok ((record { resource = resource; amount = amount }) ∷ [])
add_frozen (f ∷ frozen) resource amount =
    let rest = add_frozen frozen resource amount in
    if eqb_ℤ f.resource resource
    then (do more ← credit f.amount amount; ok ((record f { amount = more }) ∷ frozen))
    else (do more ← rest; ok (f ∷ more))

-- The account with the amount moved from the balance into the entry.
unfoldable pub freeze : Account → ℤ → ℤ → Result ActuatorError Account
unfolding debit add_frozen
freeze account resource amount = do
  balance ← debit account.balance amount balance_not_sufficient
  frozen ← add_frozen account.frozen_v2 resource amount
  ok (record account { balance = balance; frozen_v2 = frozen })

unfoldable pub execute : World → FreezeBalanceV2Contract → Outcome
unfolding parse_address need_account freeze put_account add_weight
execute w c = try w (parse_address c.owner_address invalid_address) λ owner.
    try w (need_account w owner (Actuators.execute owner_account_missing)) λ account.
      try w (freeze account c.resource c.frozen_balance) λ frozen. (
        add_weight c.resource (quot_ℤ c.frozen_balance trx_precision) (put_account owner frozen w),
        ok (pos 0),
      )
