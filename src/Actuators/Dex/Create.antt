-- ===== src/Actuators/Dex/Create.antt =====
-- `ExchangeCreateActuator` of crates/actuators/src/exchange.rs.
use tron_rs.Prelude.{
  if◌then◌else◌, Bytes, bytes_eq, ℤ, pos, ltb_ℤ, leb_ℤ, add_i64, Result, ok, ◌>>=◌, ◌>>◌, fail_if,
  ◌||◌,
}
use tron_rs.State.World.{
  World, Account, Exchange, latest_timestamp, latest_exchange_num, put_account, get_prop_i64,
  put_prop_i64, burn_trx,
}
use tron_rs.Actuators.{
  ActuatorError, Outcome, Reason, invalid_address, balance_not_sufficient, owner_account_missing,
  account_not_exists, same_tokens, balance_not_positive, over_limit, balance_not_enough,
  first_token_not_enough, second_token_not_enough, parse_address, need_account, try, debit,
  no_balance_for_fee, invalid_first_token, invalid_second_token,
}
use tron_rs.Actuators
use tron_rs.Actuators.Dex.{
  create_fee, is_trx, is_bad_id, put_exchange, balance_limit, token_balance, debit_token,
}

pub record ExchangeCreateContract : Type 0 where
  pub owner_address : Bytes
  pub first_token_id : Bytes
  pub first_token_balance : ℤ
  pub second_token_id : Bytes
  pub second_token_balance : ℤ

-- The holdings must cover a side of the pool; TRX must cover the fee as well.
unfoldable pub check_side :
    Account → Bytes → ℤ → ℤ → Actuators.Reason → Result ActuatorError (Unit {0})
unfolding token_balance
check_side account id amount fee short =
    if is_trx id
    then fail_if (ltb_ℤ account.balance (add_i64 amount fee))
        (Actuators.validate balance_not_enough)
    else fail_if (ltb_ℤ (token_balance account id) amount) (Actuators.validate short)

unfoldable pub validate : World → ExchangeCreateContract → Result ActuatorError ℤ
unfolding parse_address need_account check_side create_fee balance_limit
validate w c = do
  owner ← parse_address c.owner_address invalid_address
  account ← need_account w owner (Actuators.validate account_not_exists)
  let fee = create_fee w
  fail_if (ltb_ℤ account.balance fee) (Actuators.validate no_balance_for_fee)
  fail_if (is_bad_id c.first_token_id) (Actuators.validate invalid_first_token)
  fail_if (is_bad_id c.second_token_id) (Actuators.validate invalid_second_token)
  fail_if (bytes_eq c.first_token_id c.second_token_id) (Actuators.validate same_tokens)
  fail_if (leb_ℤ c.first_token_balance (pos 0) || leb_ℤ c.second_token_balance (pos 0))
      (Actuators.validate balance_not_positive)
  let limit = balance_limit w
  fail_if (ltb_ℤ limit c.first_token_balance || ltb_ℤ limit c.second_token_balance)
      (Actuators.validate over_limit)
  check_side account c.first_token_id c.first_token_balance fee first_token_not_enough
  check_side account c.second_token_id c.second_token_balance fee second_token_not_enough
  ok fee

-- The creator's account after the fee and the two debits.
unfoldable pub pay : Account → ExchangeCreateContract → ℤ → Result ActuatorError Account
unfolding debit debit_token
pay account c fee = do
  balance ← debit account.balance fee balance_not_sufficient
  first_paid ←
      debit_token (record account { balance = balance }) c.first_token_id c.first_token_balance
  debit_token first_paid c.second_token_id c.second_token_balance

unfoldable pub new_exchange : World → Bytes → ExchangeCreateContract → Exchange
new_exchange w owner c = record {
  exchange_id = add_i64 (get_prop_i64 w latest_exchange_num) (pos 1);
  creator_address = owner;
  create_time = get_prop_i64 w latest_timestamp;
  first_token_id = c.first_token_id;
  first_token_balance = c.first_token_balance;
  second_token_id = c.second_token_id;
  second_token_balance = c.second_token_balance;
}

-- The new pool and the counter.
unfoldable pub store_exchange : Exchange → World → World
unfolding put_exchange put_prop_i64
store_exchange ex w = put_prop_i64 latest_exchange_num ex.exchange_id (put_exchange ex w)

unfoldable pub execute : World → ExchangeCreateContract → Outcome
unfolding parse_address need_account pay store_exchange new_exchange create_fee put_account burn_trx
execute w c = try w (parse_address c.owner_address invalid_address) λ owner.
    let fee = create_fee w in
    try w (need_account w owner (Actuators.execute owner_account_missing)) λ account.
      try w (pay account c fee) λ paid.
        let w₁ = put_account owner paid w in
        let w₂ = if ltb_ℤ (pos 0) fee then burn_trx fee w₁ else w₁ in
        (store_exchange (new_exchange w₂ owner c) w₂, ok fee)
