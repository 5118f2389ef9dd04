-- ===== src/Actuators/Stake/Expire.antt =====
-- `WithdrawExpireUnfreezeActuator` of crates/actuators/src/withdraw_unfreeze.rs.
use tron_rs.Prelude.{
  if◌then◌else◌, keep_if, Bytes, ℤ, pos, leb_ℤ, add_i64, Result, ok, ◌>>=◌, ◌>>◌, fail_if, Bool,
  not, List, [], ◌∷◌,
}
use tron_rs.State.World.{World, UnfreezeV2, Account, latest_timestamp, put_account, get_prop_i64}
use tron_rs.Actuators.{
  ActuatorError, Outcome, invalid_address, owner_account_missing, account_not_exists,
  nothing_to_withdraw, parse_address, need_account, try, credit,
}
use tron_rs.Actuators

pub record WithdrawExpireUnfreezeContract : Type 0 where
  pub owner_address : Bytes

abbrev pub is_matured : ℤ → UnfreezeV2 → Bool
is_matured now u = leb_ℤ u.unfreeze_expire_time now

-- The sum of the matured amounts.
unfoldable pub matured_sum : ℤ → List UnfreezeV2 → ℤ
matured_sum now [] = pos 0
matured_sum now (u ∷ unfrozen) =
    let rest = matured_sum now unfrozen in
    if is_matured now u then add_i64 u.unfreeze_amount rest else rest

unfoldable pub matured_total : World → WithdrawExpireUnfreezeContract → Result ActuatorError ℤ
unfolding parse_address need_account matured_sum get_prop_i64
matured_total w c = do
  owner ← parse_address c.owner_address invalid_address
  account ← need_account w owner (Actuators.validate account_not_exists)
  ok (matured_sum (get_prop_i64 w latest_timestamp) account.unfrozen_v2)

unfoldable pub validate : World → WithdrawExpireUnfreezeContract → Result ActuatorError ℤ
unfolding matured_total
validate w c = do
  total ← matured_total w c
  fail_if (leb_ℤ total (pos 0)) (Actuators.validate nothing_to_withdraw)
  ok (pos 0)

-- The account with what has matured paid out.
unfoldable pub withdraw : Account → ℤ → Result ActuatorError Account
unfolding credit matured_sum
withdraw account now = do
  balance ← credit account.balance (matured_sum now account.unfrozen_v2)
  ok (record account {
    balance = balance;
    unfrozen_v2 = keep_if (λ u. not (is_matured now u)) account.unfrozen_v2;
  })

unfoldable pub execute : World → WithdrawExpireUnfreezeContract → Outcome
unfolding parse_address need_account withdraw put_account
execute w c = try w (parse_address c.owner_address invalid_address) λ owner.
    try w (need_account w owner (Actuators.execute owner_account_missing)) λ account.
      try w (withdraw account (get_prop_i64 w latest_timestamp))
        λ paid. (put_account owner paid w, ok (pos 0))
