-- ===== src/Actuators/Dex/Inject.antt =====
-- `ExchangeInjectActuator` of crates/actuators/src/exchange.rs.
use tron_rs.Prelude.{
  if◌then◌else◌, Bytes, bytes_eq, ℤ, pos, ltb_ℤ, leb_ℤ, add_i64, Result, ok, ◌>>=◌, ◌>>◌, fail_if,
  ok_or, Bool, true, false, ◌||◌,
}
use tron_rs.State.World.{World, Account, Exchange, put_account}
use tron_rs.Actuators.{
  ActuatorError, Outcome, Reason, invalid_address, owner_account_missing, over_limit,
  balance_not_enough, exchange_missing, invalid_token, token_not_in_exchange, exchange_closed,
  quant_not_positive, calculated_not_positive, token_not_enough, another_token_not_enough,
  parse_address, need_account, try,
}
use tron_rs.Actuators
use tron_rs.Actuators.Dex.{
  is_trx, is_bad_id, get_exchange, put_exchange, balance_limit, token_balance, debit_token,
  load_owner_and_pool, paired, is_foreign, is_closed,
}

pub record ExchangeInjectContract : Type 0 where
  pub owner_address : Bytes
  pub exchange_id : ℤ
  pub token_id : Bytes
  pub quant : ℤ

unfoldable pub not_enough : Bytes → Bool → Actuators.Reason
not_enough id another =
    if is_trx id
    then balance_not_enough
    else if another
    then another_token_not_enough
    else token_not_enough

-- The pool with `quant` more of the token and `another` more of the other one.
unfoldable pub injected : Exchange → Bytes → ℤ → ℤ → Exchange
injected ex token_id quant another =
    if bytes_eq token_id ex.first_token_id
    then record ex {
      first_token_balance = add_i64 ex.first_token_balance quant;
      second_token_balance = add_i64 ex.second_token_balance another;
    }
    else record ex {
      first_token_balance = add_i64 ex.first_token_balance another;
      second_token_balance = add_i64 ex.second_token_balance quant;
    }

unfoldable pub validate : World → ExchangeInjectContract → Result ActuatorError ℤ
unfolding load_owner_and_pool paired injected token_balance not_enough balance_limit
validate w c = do
  loaded ← load_owner_and_pool w c.owner_address c.exchange_id true
  let account = loaded.1
  let ex = loaded.2
  fail_if (is_bad_id c.token_id) (Actuators.validate invalid_token)
  fail_if (is_foreign ex c.token_id) (Actuators.validate token_not_in_exchange)
  fail_if (is_closed ex) (Actuators.validate exchange_closed)
  fail_if (leb_ℤ c.quant (pos 0)) (Actuators.validate quant_not_positive)
  other ← paired ex c.token_id c.quant
  fail_if (leb_ℤ other.1 (pos 0)) (Actuators.validate calculated_not_positive)
  let limit = balance_limit w
  let after = injected ex c.token_id c.quant other.1
  fail_if (ltb_ℤ limit after.first_token_balance || ltb_ℤ limit after.second_token_balance)
      (Actuators.validate over_limit)
  fail_if (ltb_ℤ (token_balance account c.token_id) c.quant)
      (Actuators.validate (not_enough c.token_id false))
  fail_if (ltb_ℤ (token_balance account other.0) other.1)
      (Actuators.validate (not_enough other.0 true))
  ok (pos 0)

-- Both debits of the account.
unfoldable pub pay_in : Account → Bytes → ℤ → Bytes × ℤ → Result ActuatorError Account
unfolding debit_token
pay_in account token_id quant other = do
  paid ← debit_token account token_id quant
  debit_token paid other.0 other.1

unfoldable pub execute : World → ExchangeInjectContract → Outcome
unfolding parse_address get_exchange paired injected need_account pay_in put_account put_exchange
execute w c = try w (parse_address c.owner_address invalid_address) λ owner.
    try w
      (do found ← get_exchange w c.exchange_id; ok_or found (Actuators.execute exchange_missing))
      λ ex. try w (paired ex c.token_id c.quant) λ other.
        try w (need_account w owner (Actuators.execute owner_account_missing)) λ account.
          try w (pay_in account c.token_id c.quant other) λ paid. (
            put_exchange (injected ex c.token_id c.quant other.1) (put_account owner paid w),
            ok (pos 0),
          )
