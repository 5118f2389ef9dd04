-- ===== src/Actuators/Transfer.antt =====
-- crates/actuators/src/transfer.rs: the plain transfer of TRX.
pub mod Exact
pub mod Validated
use tron_rs.Prelude.{
  if◌then◌else◌, Bytes, bytes_eq, ℤ, pos, ◌+ℤ◌, ltb_ℤ, leb_ℤ, checked, add_i64, Result, ok, ◌>>=◌,
  ◌>>◌, fail_if, ok_or,
}
use tron_rs.State.World.{
  World, put_account, account_exists, create_account, get_prop_i64, burn_trx,
  create_new_account_fee,
}
use tron_rs.Actuators.{
  ActuatorError, Outcome, try, parse_address, need_account, debit, credit, invalid_owner_address,
  invalid_to_address, transfer_to_self, no_owner_account, amount_not_positive, long_overflow,
  balance_not_sufficient, owner_account_missing, to_account_missing,
}
use tron_rs.Actuators

pub record TransferContract : Type 0 where
  pub owner_address : Bytes
  pub to_address : Bytes
  pub amount : ℤ

-- `TRANSFER_FEE`, which is 0, plus the fee for a new account.
unfoldable pub transfer_fee : World → Bytes → ℤ
transfer_fee w to =
    if account_exists w to then pos 0 else add_i64 (pos 0) (get_prop_i64 w create_new_account_fee)

-- From the two addresses on.
unfoldable pub validate_parsed : World → Bytes → Bytes → ℤ → Result ActuatorError ℤ
unfolding transfer_fee need_account
validate_parsed w owner to amount = do
  fail_if (bytes_eq owner to) (Actuators.validate transfer_to_self)
  account ← need_account w owner (Actuators.validate no_owner_account)
  fail_if (leb_ℤ amount (pos 0)) (Actuators.validate amount_not_positive)
  total ← ok_or (checked (amount +ℤ transfer_fee w to)) (Actuators.validate long_overflow)
  fail_if (ltb_ℤ account.balance total) (Actuators.validate balance_not_sufficient)
  ok (transfer_fee w to)

unfoldable pub validate : World → TransferContract → Result ActuatorError ℤ
unfolding validate_parsed parse_address
validate w c = do
  owner ← parse_address c.owner_address invalid_owner_address
  to ← parse_address c.to_address invalid_to_address
  validate_parsed w owner to c.amount

-- Credit the target, with the fee already burnt.
unfoldable pub credit_target : World → Bytes → ℤ → ℤ → Outcome
unfolding need_account credit put_account
credit_target w to amount fee =
    try w (need_account w to (Actuators.execute to_account_missing)) λ account.
      try w (credit account.balance amount)
        λ balance. (put_account to (record account { balance = balance }) w, ok fee)

-- Debit the owner and burn the fee, with the target account in place.
unfoldable pub move_balance : World → Bytes → Bytes → ℤ → ℤ → Outcome
unfolding credit_target debit burn_trx
move_balance w owner to amount fee =
    try w (ok_or (checked (amount +ℤ fee)) (Actuators.execute long_overflow)) λ total.
      try w (need_account w owner (Actuators.execute owner_account_missing)) λ account.
        try w (debit account.balance total balance_not_sufficient) λ balance.
          let w' = put_account owner (record account { balance = balance }) w in
          credit_target (if ltb_ℤ (pos 0) fee then burn_trx fee w' else w') to amount fee

-- A new account is written before the fee is read, which does not change it.
unfoldable pub execute_parsed : World → Bytes → Bytes → ℤ → Outcome
unfolding move_balance create_account transfer_fee
execute_parsed w owner to amount =
    let fee = transfer_fee w to in
    move_balance (if account_exists w to then w else create_account to w) owner to amount fee

unfoldable pub execute : World → TransferContract → Outcome
unfolding execute_parsed parse_address
execute w c = try w (parse_address c.owner_address invalid_owner_address) λ owner.
    try w (parse_address c.to_address invalid_to_address) λ to. execute_parsed w owner to c.amount
