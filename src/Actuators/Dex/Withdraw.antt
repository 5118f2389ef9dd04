-- ===== src/Actuators/Dex/Withdraw.antt =====
-- `ExchangeWithdrawActuator` of crates/actuators/src/exchange.rs.
use tron_rs.Prelude.{
  if◌then◌else◌, Bytes, bytes_eq, ℤ, pos, ltb_ℤ, leb_ℤ, sub_i64, Result, ok, ◌>>=◌, ◌>>◌, fail_if,
  ok_or, true, ◌||◌,
}
use tron_rs.State.World.{World, Account, Exchange, put_account}
use tron_rs.Actuators.{
  ActuatorError, Outcome, invalid_address, owner_account_missing, exchange_missing, invalid_token,
  token_not_in_exchange, exchange_closed, quant_not_positive, exchange_not_enough,
  another_not_positive, not_precise_enough, parse_address, need_account, try,
}
use tron_rs.Actuators
use tron_rs.Actuators.Dex.{
  Floats, is_bad_id, get_exchange, put_exchange, credit_token, proportional, load_owner_and_pool,
  paired, is_foreign, is_closed,
}

pub record ExchangeWithdrawContract : Type 0 where
  pub owner_address : Bytes
  pub exchange_id : ℤ
  pub token_id : Bytes
  pub quant : ℤ

-- The balance of the token in the pool, and that of the other one.
unfoldable pub sides : Exchange → Bytes → ℤ × ℤ
sides ex token_id =
    if bytes_eq token_id ex.first_token_id
    then (ex.first_token_balance, ex.second_token_balance)
    else (ex.second_token_balance, ex.first_token_balance)

unfoldable pub validate : Floats → World → ExchangeWithdrawContract → Result ActuatorError ℤ
unfolding load_owner_and_pool sides proportional
validate floats w c = do
  loaded ← load_owner_and_pool w c.owner_address c.exchange_id true
  let ex = loaded.2
  fail_if (is_bad_id c.token_id) (Actuators.validate invalid_token)
  fail_if (is_foreign ex c.token_id) (Actuators.validate token_not_in_exchange)
  fail_if (leb_ℤ c.quant (pos 0)) (Actuators.validate quant_not_positive)
  fail_if (is_closed ex) (Actuators.validate exchange_closed)
  let (this, other) = sides ex c.token_id
  another ← proportional other c.quant this
  fail_if (ltb_ℤ this c.quant || ltb_ℤ other another) (Actuators.validate exchange_not_enough)
  fail_if (leb_ℤ another (pos 0)) (Actuators.validate another_not_positive)
  fail_if (floats.imprecise other c.quant this another) (Actuators.validate not_precise_enough)
  ok (pos 0)

-- The pool with `quant` less of the token and `another` less of the other one.
unfoldable pub withdrawn : Exchange → Bytes → ℤ → ℤ → Exchange
withdrawn ex token_id quant another =
    if bytes_eq token_id ex.first_token_id
    then record ex {
      first_token_balance = sub_i64 ex.first_token_balance quant;
      second_token_balance = sub_i64 ex.second_token_balance another;
    }
    else record ex {
      first_token_balance = sub_i64 ex.first_token_balance another;
      second_token_balance = sub_i64 ex.second_token_balance quant;
    }

-- Both credits of the account.
unfoldable pub pay_out : Account → Bytes → ℤ → Bytes × ℤ → Result ActuatorError Account
unfolding credit_token
pay_out account token_id quant other = do
  paid ← credit_token account token_id quant
  credit_token paid other.0 other.1

unfoldable pub execute : World → ExchangeWithdrawContract → Outcome
unfolding parse_address get_exchange paired withdrawn need_account pay_out put_account put_exchange
execute w c = try w (parse_address c.owner_address invalid_address) λ owner.
    try w
      (do found ← get_exchange w c.exchange_id; ok_or found (Actuators.execute exchange_missing))
      λ ex. try w (paired ex c.token_id c.quant) λ other.
        try w (need_account w owner (Actuators.execute owner_account_missing)) λ account.
          try w (pay_out account c.token_id c.quant other) λ paid. (
            put_exchange (withdrawn ex c.token_id c.quant other.1) (put_account owner paid w),
            ok (pos 0),
          )
