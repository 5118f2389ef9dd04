-- ===== src/Actuators/Withdraw/Once.antt =====
-- A validated withdrawal of crates/actuators/src/withdraw.rs pays the allowance once.
use tron_rs.Prelude.{
  if◌then◌else◌, Bytes, bytes_eq, ℤ, pos, ◌+ℤ◌, ◌≤ℤ◌, IsI64, ok, err, ◌≡◌, refl, ◌∙◌, some, arith,
}
use tron_rs.Prelude.Endian.{bytes_eq_refl}
use tron_rs.State.World.{World, Account, latest_timestamp, get_account, put_account, get_prop_i64}
use tron_rs.State.World.Laws.{get_account-put_account}
use tron_rs.Actuators.{
  invalid_address, owner_account_missing, account_not_exists, no_allowance, lift, parse_address,
  need_account,
}
use tron_rs.Actuators
use tron_rs.Actuators.Transfer.Exact.{credit-in, need_some}
use tron_rs.Actuators.Withdraw.{WithdrawBalanceContract, validate, execute, paid_out}

accepted :
    (w : World) (c : WithdrawBalanceContract) (fee : ℤ) (account : Account)
    → get_account w c.owner_address ≡ ok (some account)
    → validate w c ≡ ok fee
    → (parse_address c.owner_address invalid_address ≡ ok c.owner_address)
      × (pos 1 ≤ℤ account.allowance)
unfolding validate parse_address need_account lift
accepted w c fee account stored h = ground arith

paid :
    (w : World) (c : WithdrawBalanceContract) (account : Account)
    → parse_address c.owner_address invalid_address ≡ ok c.owner_address
    → get_account w c.owner_address ≡ ok (some account)
    → IsI64 (account.balance +ℤ account.allowance)
    → execute w c ≡ (
      put_account c.owner_address
          (paid_out account
            (account.balance +ℤ account.allowance)
            (get_prop_i64 w latest_timestamp))
          w,
      ok (pos 0),
    )
unfolding execute
paid w c account parsed stored room = rw (
  parsed,
  need_some w c.owner_address (Actuators.execute Actuators.owner_account_missing) account stored,
  credit-in account.balance account.allowance room,
)

refused :
    (w : World) (c : WithdrawBalanceContract) (account : Account)
    → parse_address c.owner_address invalid_address ≡ ok c.owner_address
    → get_account w c.owner_address ≡ ok (some account)
    → account.allowance ≡ pos 0
    → validate w c ≡ err (Actuators.validate no_allowance)
unfolding validate
refused w c account parsed stored empty = rw (
  parsed,
  need_some w c.owner_address (Actuators.validate Actuators.account_not_exists) account stored,
  empty,
)

-- A withdrawal that is validated, where the sum is in range, succeeds: the allowance goes to the
-- balance and becomes 0, the time is noted, no other account changes, and a second withdrawal is
-- refused for want of an allowance.
pub withdraw_once :
    (w : World) (c : WithdrawBalanceContract) (fee : ℤ) (account : Account)
    → get_account w c.owner_address ≡ ok (some account)
    → validate w c ≡ ok fee
    → IsI64 (account.balance +ℤ account.allowance)
    → ((execute w c).1 ≡ ok (pos 0))
      × ((a : Bytes)
          → get_account (execute w c).0 a ≡ (
              if bytes_eq c.owner_address a
              then ok (
                  some (
                    paid_out account
                      (account.balance +ℤ account.allowance)
                      (get_prop_i64 w latest_timestamp)))
              else get_account w a))
      × (validate (execute w c).0 c ≡ err (Actuators.validate no_allowance))
withdraw_once w c fee account stored valid_contract room =
    let (parsed, positive) = accepted w c fee account stored valid_contract in
    let after =
      paid_out account (account.balance +ℤ account.allowance) (get_prop_i64 w latest_timestamp) in
    let w' = put_account c.owner_address after w in
    let stored' : get_account w' c.owner_address ≡ ok (some after) =
      get_account-put_account c.owner_address c.owner_address after w
      ∙ rw (bytes_eq_refl c.owner_address) in
    rw (paid w c account parsed stored room) (
      refl,
      (λ a. get_account-put_account c.owner_address a after w),
      refused w' c after parsed stored' refl,
    )
