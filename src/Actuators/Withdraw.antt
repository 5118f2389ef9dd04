-- ===== src/Actuators/Withdraw.antt =====
-- crates/actuators/src/withdraw.rs: a witness takes its allowance, once a day at most.
pub mod Once
use tron_rs.Prelude.{Bytes, ℤ, pos, ltb_ℤ, leb_ℤ, sub_i64, Result, ok, ◌>>=◌, ◌>>◌, fail_if}
use tron_rs.State.World.{World, Account, latest_timestamp, put_account, get_prop_i64}
use tron_rs.Actuators.{
  ActuatorError, Outcome, invalid_address, owner_account_missing, account_not_exists, no_allowance,
  withdrawn_too_recently, parse_address, need_account, try, credit,
}
use tron_rs.Actuators

-- `WITHDRAW_INTERVAL_MS`
abbrev pub withdraw_interval_ms : ℤ
withdraw_interval_ms = pos 86_400_000

pub record WithdrawBalanceContract : Type 0 where
  pub owner_address : Bytes

unfoldable pub validate : World → WithdrawBalanceContract → Result ActuatorError ℤ
unfolding parse_address need_account
validate w c = do
  owner ← parse_address c.owner_address invalid_address
  account ← need_account w owner (Actuators.validate account_not_exists)
  fail_if (leb_ℤ account.allowance (pos 0)) (Actuators.validate no_allowance)
  let now = get_prop_i64 w latest_timestamp
  fail_if (ltb_ℤ (sub_i64 now account.latest_withdraw_time) withdraw_interval_ms)
      (Actuators.validate withdrawn_too_recently)
  ok (pos 0)

-- The account with its allowance paid out.
abbrev pub paid_out : Account → ℤ → ℤ → Account
paid_out account balance now = record account {
  balance = balance;
  allowance = pos 0;
  latest_withdraw_time = now;
}

unfoldable pub execute : World → WithdrawBalanceContract → Outcome
unfolding parse_address need_account credit put_account
execute w c = try w (parse_address c.owner_address invalid_address) λ owner.
    let now = get_prop_i64 w latest_timestamp in
    try w (need_account w owner (Actuators.execute owner_account_missing)) λ account.
      try w (credit account.balance account.allowance)
        λ balance. (put_account owner (paid_out account balance now) w, ok (pos 0))
