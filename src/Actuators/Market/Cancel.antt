-- ===== src/Actuators/Market/Cancel.antt =====
-- `MarketCancelOrderActuator` of crates/actuators/src/market/cancel.rs.
use tron_rs.Prelude.{
  ◌==◌, if◌then◌else◌, length, Bytes, bytes_eq, ℤ, pos, ltb_ℤ, eqb_ℤ, add_i64, Result, ok, err,
  ◌>>=◌, ◌>>◌, fail_if, ok_or, not, [], ◌∷◌,
}
use tron_rs.State.World.{
  World, Account, MarketOrder, allow_market_transaction, market_cancel_fee, put_account, burn_trx,
}
use tron_rs.Actuators.{
  ActuatorError, Outcome, invalid_address, balance_not_sufficient, owner_account_missing,
  account_not_exists, order_not_exists, order_not_active, order_not_owned, balance_not_enough,
  state, parse_address, need_account, require_feature, try, debit,
}
use tron_rs.Actuators
use tron_rs.Actuators.Dex.{credit_token}
use tron_rs.Actuators.Market.{fee_of, active, canceled}
use tron_rs.Actuators.Market.Book.{
  pair_key, get_order, put_order, list_drop, remove_price, get_order_ids, put_order_ids,
  remove_account_order,
}

pub record MarketCancelOrderContract : Type 0 where
  pub owner_address : Bytes
  pub order_id : Bytes

unfoldable pub order_id : Bytes → Result ActuatorError Bytes
order_id bytes = if length bytes == 32 then ok bytes else err (Actuators.validate order_not_exists)

unfoldable pub validate : World → MarketCancelOrderContract → Result ActuatorError ℤ
unfolding require_feature parse_address need_account order_id get_order fee_of
validate w c = do
  require_feature w allow_market_transaction
  owner ← parse_address c.owner_address invalid_address
  account ← need_account w owner (Actuators.validate account_not_exists)
  id ← order_id c.order_id
  found ← get_order w id
  order ← ok_or found (Actuators.validate order_not_exists)
  fail_if (not (eqb_ℤ order.state active)) (Actuators.validate order_not_active)
  fail_if (not (bytes_eq order.owner_address owner)) (Actuators.validate order_not_owned)
  let fee = fee_of w market_cancel_fee
  fail_if (ltb_ℤ account.balance fee) (Actuators.validate balance_not_enough)
  ok fee

-- The owner's account after the fee and the refund.
unfoldable pub refund : Account → MarketOrder → ℤ → Result ActuatorError Account
unfolding debit credit_token
refund account order fee = do
  balance ← debit account.balance fee balance_not_sufficient
  credit_token (record account { balance = balance }) order.sell_token_id
      order.sell_token_quantity_remain

unfoldable pub canceled_order : MarketOrder → MarketOrder
canceled_order order = record order {
  sell_token_quantity_return =
      add_i64 order.sell_token_quantity_return order.sell_token_quantity_remain;
  sell_token_quantity_remain = pos 0;
  state = canceled;
}

-- The order out of its queue, the price out of the list when the queue empties, and the order out
-- of its owner's index.
unfoldable pub delist : MarketOrder → Bytes → World → World
unfolding get_order_ids put_order_ids list_drop remove_price remove_account_order pair_key
delist order id w =
    let pair = pair_key order.sell_token_id order.buy_token_id in
    let price : ℤ × ℤ = (order.sell_token_quantity, order.buy_token_quantity) in
    let ids = list_drop (get_order_ids w pair price) id in
    let w₁ = put_order_ids pair price ids w in
    let w₂ : World = elim ids [ [] ↦ remove_price pair price w₁ | _ ∷ _ ↦ w₁ ] in
    remove_account_order order.owner_address id w₂

unfoldable pub execute : World → MarketCancelOrderContract → Outcome
unfolding parse_address order_id get_order need_account refund canceled_order put_account put_order
    burn_trx delist fee_of
execute w c = try w (parse_address c.owner_address invalid_address) λ owner.
    let fee = fee_of w market_cancel_fee in
    try w (order_id c.order_id) λ id.
      try w (do found ← get_order w id; ok_or found (Actuators.execute order_not_exists))
        λ order. try w (need_account w owner (Actuators.execute owner_account_missing)) λ account.
          try w (refund account order fee) λ refunded.
            let w₁ = put_account owner refunded w in
            try w₁ (put_order (canceled_order order) w₁) λ w₂.
              let w₃ = if ltb_ℤ (pos 0) fee then burn_trx fee w₂ else w₂ in
              (delist order id w₃, ok fee)
