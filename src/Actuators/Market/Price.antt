-- ===== src/Actuators/Market/Price.antt =====
-- crates/actuators/src/market/price.rs: prices, and the amounts of one fill that `match_single` of
-- sell.rs computes from them. A price is (sell quantity, buy quantity).
pub mod Fair
use tron_rs.Prelude.{
  if◌then◌else◌, ℤ, pos, ◌*ℤ◌, quot_ℤ, ltb_ℤ, eqb_ℤ, cmp_ℤ, wrap_i64, sub_i64, Result, ok, err,
  ◌>>=◌, Bool, true, false,
}
use Prim.Native.Nat.{Ordering}
use tron_rs.Actuators.{ActuatorError, panic}

unfoldable pub compare_price : ℤ → ℤ → ℤ → ℤ → Ordering
compare_price p1_sell p1_buy p2_sell p2_buy = cmp_ℤ (p1_buy *ℤ p2_sell) (p2_buy *ℤ p1_sell)

unfoldable pub cmp_maker_price : ℤ × ℤ → ℤ × ℤ → Ordering
unfolding compare_price
cmp_maker_price a b = compare_price a.0 a.1 b.0 b.1

unfoldable pub price_match : ℤ → ℤ → ℤ → ℤ → Bool
unfolding compare_price
price_match taker_sell taker_buy maker_sell maker_buy =
    elim (compare_price taker_buy taker_sell maker_sell maker_buy) [
      | Ordering.lt ↦ false
      | _ ↦ true
    ]

-- `(a as i128 * b as i128 / c as i128) as i64`: the quotient wraps into an i64; a division by 0
-- panics.
unfoldable pub multiply_and_divide : ℤ → ℤ → ℤ → Result ActuatorError ℤ
multiply_and_divide a b c = if eqb_ℤ c (pos 0) then err panic else ok (wrap_i64 (quot_ℤ (a *ℤ b) c))

-- What the two sides of a fill get, and what remains of their orders.
pub record Amounts : Type 0 where
  pub taker_buy_receive : ℤ
  pub maker_buy_receive : ℤ
  pub taker_remain : ℤ
  pub maker_remain : ℤ

-- The taker's rest buys nothing; the maker's rest is worth nothing; or a trade.
pub data Fill : Type 0 where
  return_taker return_maker : Fill
  trade : Amounts → Fill

-- From the amount that the taker could buy on.
unfoldable pub fill_for : ℤ → ℤ → ℤ → ℤ → ℤ → Result ActuatorError Fill
unfolding multiply_and_divide
fill_for taker_buy_remain taker_sell_remain maker_sell maker_buy maker_sell_remain =
    if eqb_ℤ taker_buy_remain (pos 0)
    then ok return_taker
    else if eqb_ℤ taker_buy_remain maker_sell_remain
    then (do
      receive ← multiply_and_divide maker_sell_remain maker_buy maker_sell
      ok (
          trade (record {
            taker_buy_receive = maker_sell_remain;
            maker_buy_receive = receive;
            taker_remain = sub_i64 taker_sell_remain receive;
            maker_remain = pos 0;
          })))
    else if ltb_ℤ taker_buy_remain maker_sell_remain
    then ok (
        trade (record {
          taker_buy_receive = taker_buy_remain;
          maker_buy_receive = taker_sell_remain;
          taker_remain = pos 0;
          maker_remain = sub_i64 maker_sell_remain taker_buy_remain;
        }))
    else (do
      receive ← multiply_and_divide maker_sell_remain maker_buy maker_sell
      ok (
          if eqb_ℤ receive (pos 0)
          then return_maker
          else trade (record {
            taker_buy_receive = maker_sell_remain;
            maker_buy_receive = receive;
            taker_remain = sub_i64 taker_sell_remain receive;
            maker_remain = pos 0;
          })))

unfoldable pub fill : ℤ → ℤ → ℤ → ℤ → Result ActuatorError Fill
unfolding multiply_and_divide fill_for
fill taker_sell_remain maker_sell maker_buy maker_sell_remain = do
  taker_buy_remain ← multiply_and_divide taker_sell_remain maker_sell maker_buy
  fill_for taker_buy_remain taker_sell_remain maker_sell maker_buy maker_sell_remain
