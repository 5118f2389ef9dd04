-- ===== src/Actuators/Market/Sell.antt =====
-- `MarketSellAssetActuator` of crates/actuators/src/market/sell.rs.
pub mod Match
pub mod Keeps
pub mod Rounds
use tron_rs.Prelude.Endian.{i64_to_be}
use tron_rs.Prelude.{
  if◌then◌else◌, Bytes, bytes_eq, ℤ, pos, ltb_ℤ, leb_ℤ, eqb_ℤ, add_i64, Result, ok, ◌>>=◌, ◌>>◌,
  fail_if, ◌||◌, ◌∷◌,
}
use tron_rs.State.World.{
  World, Account, MarketOrder, latest_timestamp, allow_market_transaction, market_order_num,
  market_sell_fee, market_quantity_limit, put_account, get_prop_i64, put_prop_i64, burn_trx,
}
use tron_rs.Actuators.{
  ActuatorError, Outcome, invalid_address, balance_not_sufficient, owner_account_missing,
  account_not_exists, invalid_sell_token, invalid_buy_token, same_tokens, over_limit,
  balance_not_enough, quant_not_positive, token_not_enough, state, parse_address, need_account,
  require_feature, try, debit,
}
use tron_rs.Actuators
use tron_rs.Actuators.Dex.{token_balance, is_trx, is_bad_id, debit_token}
use tron_rs.Actuators.Market.{fee_of, default_market_quantity_limit, active}
use tron_rs.Actuators.Market.Book.{
  pair_key, put_order, add_order_to_book, add_account_order, remove_account_order,
}
use tron_rs.Actuators.Market.Sell.Match.{Matching, match_order}

pub record MarketSellAssetContract : Type 0 where
  pub owner_address : Bytes
  pub sell_token_id : Bytes
  pub sell_token_quantity : ℤ
  pub buy_token_id : Bytes
  pub buy_token_quantity : ℤ

unfoldable pub quantity_limit : World → ℤ
quantity_limit w =
    let limit = get_prop_i64 w market_quantity_limit in
    if ltb_ℤ (pos 0) limit then limit else default_market_quantity_limit

-- The balance must cover the fee, and the holdings what is sold.
unfoldable pub check_funds : Account → MarketSellAssetContract → ℤ → Result ActuatorError (Unit {0})
unfolding token_balance
check_funds account c fee =
    if is_trx c.sell_token_id
    then fail_if (ltb_ℤ account.balance (add_i64 c.sell_token_quantity fee))
        (Actuators.validate balance_not_enough)
    else (do
      fail_if (ltb_ℤ account.balance fee) (Actuators.validate balance_not_enough)
      fail_if (ltb_ℤ (token_balance account c.sell_token_id) c.sell_token_quantity)
          (Actuators.validate token_not_enough))

unfoldable pub validate : World → MarketSellAssetContract → Result ActuatorError ℤ
unfolding require_feature parse_address need_account quantity_limit fee_of check_funds
validate w c = do
  require_feature w allow_market_transaction
  owner ← parse_address c.owner_address invalid_address
  account ← need_account w owner (Actuators.validate account_not_exists)
  fail_if (is_bad_id c.sell_token_id) (Actuators.validate invalid_sell_token)
  fail_if (is_bad_id c.buy_token_id) (Actuators.validate invalid_buy_token)
  fail_if (bytes_eq c.sell_token_id c.buy_token_id) (Actuators.validate same_tokens)
  fail_if (leb_ℤ c.sell_token_quantity (pos 0) || leb_ℤ c.buy_token_quantity (pos 0))
      (Actuators.validate quant_not_positive)
  let limit = quantity_limit w
  fail_if (ltb_ℤ limit c.sell_token_quantity || ltb_ℤ limit c.buy_token_quantity)
      (Actuators.validate over_limit)
  let fee = fee_of w market_sell_fee
  check_funds account c fee
  ok fee

-- The owner's account after the fee and the escrow.
unfoldable pub escrow : Account → MarketSellAssetContract → ℤ → Result ActuatorError Account
unfolding debit debit_token
escrow account c fee = do
  balance ← debit account.balance fee balance_not_sufficient
  debit_token (record account { balance = balance }) c.sell_token_id c.sell_token_quantity

-- The id that is given out, 24 zero bytes and the counter, and the world with the counter raised.
unfoldable pub allocate_order_id : World → Bytes × World
unfolding put_prop_i64
allocate_order_id w =
    let n = add_i64 (get_prop_i64 w market_order_num) (pos 1) in
    (
      0
          ∷ 0
          ∷ 0
          ∷ 0
          ∷ 0
          ∷ 0
          ∷ 0
          ∷ 0
          ∷ 0
          ∷ 0
          ∷ 0
          ∷ 0
          ∷ 0
          ∷ 0
          ∷ 0
          ∷ 0
          ∷ 0
          ∷ 0
          ∷ 0
          ∷ 0
          ∷ 0
          ∷ 0
          ∷ 0
          ∷ 0
          ∷ i64_to_be n,
      put_prop_i64 market_order_num n w,
    )

unfoldable pub new_order : MarketSellAssetContract → Bytes → Bytes → ℤ → MarketOrder
new_order c owner id now = record {
  order_id = id;
  owner_address = owner;
  create_time = now;
  sell_token_id = c.sell_token_id;
  sell_token_quantity = c.sell_token_quantity;
  buy_token_id = c.buy_token_id;
  buy_token_quantity = c.buy_token_quantity;
  sell_token_quantity_remain = c.sell_token_quantity;
  sell_token_quantity_return = pos 0;
  state = active;
}

-- What is left of the order is booked; an order with nothing left is dropped from the owner's index.
unfoldable pub book_residual : MarketSellAssetContract → Bytes → Bytes → ℤ → World → World
unfolding add_order_to_book remove_account_order pair_key
book_residual c owner id remain w =
    if eqb_ℤ remain (pos 0)
    then remove_account_order owner id w
    else add_order_to_book (pair_key c.sell_token_id c.buy_token_id)
        (c.sell_token_quantity, c.buy_token_quantity) id w

-- From the matching on: the residual, the order, the owner's account and the fee.
unfoldable pub settle : MarketSellAssetContract → Bytes → Bytes → ℤ → Matching → Outcome
unfolding book_residual put_order put_account burn_trx
settle c owner id fee m =
    let w₁ = book_residual c owner id m.taker.sell_token_quantity_remain m.world in
    try w₁ (put_order m.taker w₁) λ w₂.
      let w₃ = put_account owner m.account w₂ in
      (if ltb_ℤ (pos 0) fee then burn_trx fee w₃ else w₃, ok fee)

unfoldable pub execute : World → MarketSellAssetContract → Outcome
unfolding parse_address need_account escrow allocate_order_id new_order match_order settle fee_of
    add_account_order
execute w c = try w (parse_address c.owner_address invalid_address) λ owner.
    let fee = fee_of w market_sell_fee in
    try w (need_account w owner (Actuators.execute owner_account_missing)) λ account.
      try w (escrow account c fee) λ paid.
        let (id, w₁) = allocate_order_id w in
        let w₂ = add_account_order owner id w₁ in
        let taker = new_order c owner id (get_prop_i64 w latest_timestamp) in
        let (m, matched) = match_order (record { world = w₂; taker = taker; account = paid }) in
        try m.world matched λ _. settle c owner id fee m
