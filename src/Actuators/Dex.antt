-- ===== src/Actuators/Dex.antt =====
-- crates/actuators/src/exchange.rs: the on-chain exchange, which trades two tokens against a pool.
-- What it computes with f64, whose `powf` and rounding are of the platform, is the record `Floats`.
-- A token id is its bytes: the text that keys the assets is the same on the ASCII ids that pass the
-- checks.
pub mod Create
pub mod Inject
pub mod Withdraw
pub mod Swap
pub mod Tokens
pub mod Conserve
pub mod Trades
pub mod Settled
pub mod Executed
pub mod Atomic
use tron_rs.Prelude.{
  leb, ◌==◌, if◌then◌else◌, Bytes, bytes_eq, ℤ, pos, ◌*ℤ◌, quot_ℤ, ltb_ℤ, eqb_ℤ, checked, add_i64,
  sub_i64, Result, ok, err, ◌>>=◌, ◌>>◌, fail_if, ok_or, Bool, true, false, ◌&&◌, ◌||◌, not, Option,
  some, List, [], ◌∷◌,
}
use tron_rs.State.World.{
  World, Account, Exchange, valid, exchange_create_fee, exchange_balance_limit, read_cell,
  get_prop_i64,
}
use tron_rs.Actuators.{
  ActuatorError, lift, parse_address, invalid_address, long_overflow, balance_not_sufficient,
  account_not_exists, asset_not_sufficient, exchange_not_exists, not_creator, validate, panic,
  need_account, debit, credit, no_balance_for_fee,
}
use tron_rs.Actuators

-- `bancor_exchange`, and whether the precision check of the withdrawal refuses: on the other
-- balance, the amount, this balance and the paired amount.
pub record Floats : Type 0 where
  pub bancor_exchange : ℤ → ℤ → ℤ → ℤ
  pub imprecise : ℤ → ℤ → ℤ → ℤ → Bool

abbrev pub default_exchange_create_fee : ℤ
default_exchange_create_fee = pos 1_024_000_000

abbrev pub default_exchange_balance_limit : ℤ
default_exchange_balance_limit = pos 1_000_000_000_000_000

-- `"_"`
abbrev pub trx_symbol_bytes : Bytes
trx_symbol_bytes = 95 ∷ []

abbrev pub is_trx : Bytes → Bool
is_trx id = bytes_eq id trx_symbol_bytes

-- `iter().all(|b| b.is_ascii_digit())`
abbrev pub all_digits : Bytes → Bool
all_digits [] = true
all_digits (b ∷ id) = leb 48 b && leb b 57 && all_digits id

unfoldable pub is_number : Bytes → Bool
is_number [] = false
is_number (b ∷ []) = all_digits (b ∷ [])
is_number (b ∷ c ∷ id) = all_digits (b ∷ c ∷ id) && not (b == 48)

-- Neither TRX nor a number.
abbrev pub is_bad_id : Bytes → Bool
is_bad_id id = not (is_trx id) && not (is_number id)

unfoldable pub get_exchange : World → ℤ → Result ActuatorError (Option Exchange)
unfolding lift read_cell
get_exchange w id = lift (read_cell (w.exchanges id))

unfoldable pub put_exchange : Exchange → World → World
put_exchange ex w = record w {
  exchanges = λ id. if eqb_ℤ ex.exchange_id id then some (valid ex) else w.exchanges id;
}

unfoldable pub create_fee : World → ℤ
create_fee w =
    let fee = get_prop_i64 w exchange_create_fee in
    if ltb_ℤ (pos 0) fee then fee else default_exchange_create_fee

unfoldable pub balance_limit : World → ℤ
balance_limit w =
    let limit = get_prop_i64 w exchange_balance_limit in
    if ltb_ℤ (pos 0) limit then limit else default_exchange_balance_limit

-- `asset_v2.get(&key).copied().unwrap_or(0)` and `asset_v2.insert(key, amount)`.
unfoldable pub asset_of : List (Bytes × ℤ) → Bytes → ℤ
asset_of [] id = pos 0
asset_of ((key, amount) ∷ assets) id = if bytes_eq key id then amount else asset_of assets id

unfoldable pub set_asset : List (Bytes × ℤ) → Bytes → ℤ → List (Bytes × ℤ)
set_asset [] id amount = (id, amount) ∷ []
set_asset ((key, old) ∷ assets) id amount =
    let rest = set_asset assets id amount in
    if bytes_eq key id then (key, amount) ∷ assets else (key, old) ∷ rest

unfoldable pub token_balance : Account → Bytes → ℤ
unfolding asset_of
token_balance account id = if is_trx id then account.balance else asset_of account.asset_v2 id

-- The account with the balance of one token replaced.
unfoldable pub with_token : Account → Bytes → ℤ → Account
unfolding set_asset
with_token account id amount =
    if is_trx id
    then record account { balance = amount }
    else record account { asset_v2 = set_asset account.asset_v2 id amount }

unfoldable pub debit_token : Account → Bytes → ℤ → Result ActuatorError Account
unfolding debit with_token token_balance
debit_token account id amount = do
  let reason = if is_trx id then balance_not_sufficient else asset_not_sufficient
  balance ← debit (token_balance account id) amount reason
  ok (with_token account id balance)

unfoldable pub credit_token : Account → Bytes → ℤ → Result ActuatorError Account
unfolding credit with_token token_balance
credit_token account id amount = do
  balance ← credit (token_balance account id) amount
  ok (with_token account id balance)

-- `other * quant / this` as an i128, back in an i64; a division by 0 panics.
unfoldable pub proportional : ℤ → ℤ → ℤ → Result ActuatorError ℤ
proportional other quant this =
    if eqb_ℤ this (pos 0)
    then err Actuators.panic
    else ok_or (checked (quot_ℤ (other *ℤ quant) this)) (Actuators.validate long_overflow)

-- What is bought, and the balances of the pool afterwards.
unfoldable pub pool_transaction : Floats → Exchange → Bytes → ℤ → ℤ × ℤ × ℤ
pool_transaction floats ex sell_id sell_quant =
    let first = ex.first_token_balance in
    let second = ex.second_token_balance in
    if bytes_eq ex.first_token_id sell_id
    then (let buy = floats.bancor_exchange first second sell_quant in
        (buy, add_i64 first sell_quant, sub_i64 second buy))
    else (let buy = floats.bancor_exchange second first sell_quant in
        (buy, sub_i64 first buy, add_i64 second sell_quant))

unfoldable pub load_owner_and_pool :
    World → Bytes → ℤ → Bool → Result ActuatorError (Bytes × Account × Exchange)
unfolding parse_address need_account get_exchange
load_owner_and_pool w owner_bytes exchange_id require_creator = do
  owner ← parse_address owner_bytes invalid_address
  account ← need_account w owner (Actuators.validate account_not_exists)
  fail_if (ltb_ℤ account.balance (pos 0)) (Actuators.validate no_balance_for_fee)
  found ← get_exchange w exchange_id
  ex ← ok_or found (Actuators.validate exchange_not_exists)
  fail_if (require_creator && not (bytes_eq ex.creator_address owner))
      (Actuators.validate not_creator)
  ok (owner, account, ex)

-- The other token, and the amount of it that keeps the ratio; the same function twice in the source.
unfoldable pub paired : Exchange → Bytes → ℤ → Result ActuatorError (Bytes × ℤ)
unfolding proportional
paired ex token_id quant =
    if bytes_eq token_id ex.first_token_id
    then (do
      amount ← proportional ex.second_token_balance quant ex.first_token_balance
      ok (ex.second_token_id, amount))
    else (do
      amount ← proportional ex.first_token_balance quant ex.second_token_balance
      ok (ex.first_token_id, amount))

-- Whether the token is neither of the pool's.
abbrev pub is_foreign : Exchange → Bytes → Bool
is_foreign ex token_id =
    not (bytes_eq token_id ex.first_token_id) && not (bytes_eq token_id ex.second_token_id)

abbrev pub is_closed : Exchange → Bool
is_closed ex = eqb_ℤ ex.first_token_balance (pos 0) || eqb_ℤ ex.second_token_balance (pos 0)
