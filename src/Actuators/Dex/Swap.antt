-- ===== src/Actuators/Dex/Swap.antt =====
-- `ExchangeTransactionActuator` of crates/actuators/src/exchange.rs.
use tron_rs.Prelude.{
  if◌then◌else◌, Bytes, bytes_eq, ℤ, pos, ltb_ℤ, leb_ℤ, add_i64, Result, ok, ◌>>=◌, ◌>>◌, fail_if,
  ok_or, false,
}
use tron_rs.State.World.{World, Account, Exchange, put_account}
use tron_rs.Actuators.{
  ActuatorError, Outcome, invalid_address, owner_account_missing, over_limit, balance_not_enough,
  exchange_missing, invalid_token, token_not_in_exchange, exchange_closed, quant_not_positive,
  expected_not_positive, token_not_enough, less_than_expected, parse_address, need_account, try,
}
use tron_rs.Actuators
use tron_rs.Actuators.Dex.{
  Floats, is_trx, is_bad_id, get_exchange, put_exchange, balance_limit, token_balance, debit_token,
  credit_token, pool_transaction, load_owner_and_pool, is_foreign, is_closed,
}

pub record ExchangeTransactionContract : Type 0 where
  pub owner_address : Bytes
  pub exchange_id : ℤ
  pub token_id : Bytes
  pub quant : ℤ
  pub expected : ℤ

unfoldable pub validate : Floats → World → ExchangeTransactionContract → Result ActuatorError ℤ
unfolding load_owner_and_pool pool_transaction token_balance balance_limit
validate floats w c = do
  loaded ← load_owner_and_pool w c.owner_address c.exchange_id false
  let account = loaded.1
  let ex = loaded.2
  fail_if (is_bad_id c.token_id) (Actuators.validate invalid_token)
  fail_if (is_foreign ex c.token_id) (Actuators.validate token_not_in_exchange)
  fail_if (leb_ℤ c.quant (pos 0)) (Actuators.validate quant_not_positive)
  fail_if (leb_ℤ c.expected (pos 0)) (Actuators.validate expected_not_positive)
  fail_if (is_closed ex) (Actuators.validate exchange_closed)
  let side =
      if bytes_eq c.token_id ex.first_token_id
      then ex.first_token_balance
      else ex.second_token_balance
  fail_if (ltb_ℤ (balance_limit w) (add_i64 side c.quant)) (Actuators.validate over_limit)
  fail_if (ltb_ℤ (token_balance account c.token_id) c.quant)
      (Actuators.validate (if is_trx c.token_id then balance_not_enough else token_not_enough))
  fail_if (ltb_ℤ (pool_transaction floats ex c.token_id c.quant).0 c.expected)
      (Actuators.validate less_than_expected)
  ok (pos 0)

-- The pool after the swap.
unfoldable pub swapped : Floats → Exchange → Bytes → ℤ → Exchange
unfolding pool_transaction
swapped floats ex token_id quant =
    let (buy, first, second) = pool_transaction floats ex token_id quant in
    record ex { first_token_balance = first; second_token_balance = second }

-- The debit of what is sold and the credit of what is bought.
unfoldable pub trade : Floats → Exchange → Account → Bytes → ℤ → Result ActuatorError Account
unfolding pool_transaction debit_token credit_token
trade floats ex account token_id quant = do
  let another =
      if bytes_eq token_id ex.first_token_id then ex.second_token_id else ex.first_token_id
  sold ← debit_token account token_id quant
  credit_token sold another (pool_transaction floats ex token_id quant).0

unfoldable pub execute : Floats → World → ExchangeTransactionContract → Outcome
unfolding parse_address get_exchange need_account swapped trade put_account put_exchange
execute floats w c = try w (parse_address c.owner_address invalid_address) λ owner.
    try w
      (do found ← get_exchange w c.exchange_id; ok_or found (Actuators.execute exchange_missing))
      λ ex. try w (need_account w owner (Actuators.execute owner_account_missing)) λ account.
        try w (trade floats ex account c.token_id c.quant) λ paid. (
          put_exchange (swapped floats ex c.token_id c.quant) (put_account owner paid w),
          ok (pos 0),
        )
