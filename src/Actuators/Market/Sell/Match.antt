-- ===== src/Actuators/Market/Sell/Match.antt =====
-- `match_order` and `match_single` of crates/actuators/src/market/sell.rs.
use tron_rs.Prelude.{
  if◌then◌else◌, length, Bytes, ℤ, pos, eqb_ℤ, Result, ok, err, ◌>>=◌, ok_or, ℕ, zero, suc, Bool,
  true, false, Option, none, some, List, [], ◌∷◌,
}
use tron_rs.State.World.{World, Account, MarketOrder, put_account}
use tron_rs.Actuators.{
  ActuatorError, attempt, invalid_address, too_many_matches, maker_order_missing,
  maker_account_missing, state, parse_address, need_account,
}
use tron_rs.Actuators
use tron_rs.Actuators.Dex.{credit_token}
use tron_rs.Actuators.Market.{max_match_num, inactive}
use tron_rs.Actuators.Market.Price.{fill, price_match, Fill, return_taker, return_maker, trade}
use tron_rs.Actuators.Market.Book.{
  pair_key, get_order, put_order, get_prices, stored, remove_price, best_price, get_order_ids,
  put_order_ids, remove_account_order,
}

-- What the matching changes: the world, the taker's order and the taker's account, which stands
-- beside the world until the end.
pub record Matching : Type 0 where
  pub world : World
  pub taker : MarketOrder
  pub account : Account

-- The credit of an amount to the owner of a maker's order.
unfoldable pub credit_maker : MarketOrder → Bytes → ℤ → World → Result ActuatorError World
unfolding parse_address need_account credit_token put_account
credit_maker maker token amount w = do
  owner ← parse_address maker.owner_address invalid_address
  account ← need_account w owner (Actuators.execute maker_account_missing)
  credited ← credit_token account token amount
  ok (put_account owner credited w)

-- Settle one fill, once its amounts are known; the answer is the maker's order and whether matching
-- stops.
unfoldable pub settle_fill :
    Matching → MarketOrder → Fill → Matching × Result ActuatorError (MarketOrder × Bool)
unfolding credit_maker credit_token
settle_fill m maker return_taker =
    let taker = m.taker in
    let remain = taker.sell_token_quantity_remain in
    attempt m (credit_token m.account taker.sell_token_id remain) λ account. (
      record m {
        account = account;
        taker = record taker {
          sell_token_quantity_return = remain;
          sell_token_quantity_remain = pos 0;
          state = inactive;
        };
      },
      ok (maker, true),
    )
settle_fill m maker return_maker =
    let remain = maker.sell_token_quantity_remain in
    attempt m (credit_maker maker maker.sell_token_id remain m.world) λ w. (
      record m { world = w },
      ok (
        record maker {
          sell_token_quantity_return = remain;
          sell_token_quantity_remain = pos 0;
          state = inactive;
        },
        false,
      ),
    )
settle_fill m maker (trade amounts) =
    attempt m (credit_token m.account m.taker.buy_token_id amounts.taker_buy_receive) λ account.
      attempt m (credit_maker maker maker.buy_token_id amounts.maker_buy_receive m.world) λ w. (
        record {
          world = w;
          account = account;
          taker = record m.taker { sell_token_quantity_remain = amounts.taker_remain };
        },
        ok (record maker { sell_token_quantity_remain = amounts.maker_remain }, false),
      )

unfoldable pub match_single :
    Matching → MarketOrder → Matching × Result ActuatorError (MarketOrder × Bool)
unfolding fill settle_fill
match_single m maker =
    attempt m
      (fill m.taker.sell_token_quantity_remain maker.sell_token_quantity maker.buy_token_quantity
        maker.sell_token_quantity_remain)
      (settle_fill m maker)

-- The maker's order back in the store, and the ids that are left of `maker_id ∷ rest`.
unfoldable pub store_maker :
    Matching → Bytes → List Bytes → MarketOrder → Matching × Result ActuatorError (List Bytes)
unfolding put_order remove_account_order
store_maker m maker_id rest maker =
    if eqb_ℤ maker.sell_token_quantity_remain (pos 0)
    then (attempt m (put_order (record maker { state = inactive }) m.world)
        λ w. (record m { world = remove_account_order maker.owner_address maker_id w }, ok rest))
    else attempt m (put_order maker m.world) λ w. (record m { world = w }, ok (maker_id ∷ rest))

unfoldable pub find_maker : World → Bytes → Result ActuatorError MarketOrder
unfolding get_order
find_maker w id = do found ← get_order w id; ok_or found (Actuators.execute maker_order_missing)

-- One round of the inner loop, before the count: the ids that are left, and whether to stop.
unfoldable pub match_head :
    Matching → Bytes → List Bytes → Matching × Result ActuatorError (List Bytes × Bool)
unfolding find_maker match_single store_maker
match_head m maker_id rest = attempt m (find_maker m.world maker_id) λ maker.
    let (m₁, single) = match_single m maker in
    attempt m₁ single λ settled.
      let (m₂, stored) = store_maker m₁ maker_id rest settled.0 in
      attempt m₂ stored λ ids. (m₂, ok (ids, settled.1))

abbrev pub is_done : Matching → Bool
is_done m = eqb_ℤ m.taker.sell_token_quantity_remain (pos 0)

-- The inner loop over the orders of one price. `budget` is `MAX_MATCH_NUM - match_count`: the match
-- that would make it negative is an error. The answer is the ids and the budget that are left, and
-- whether to stop.
unfoldable pub match_level :
    ℕ → List Bytes → Matching → Matching × Result ActuatorError (List Bytes × ℕ × Bool)
unfolding match_head
match_level budget [] m = (m, ok ([], budget, false))
match_level zero (id ∷ rest) m =
    if is_done m
    then (m, ok (id ∷ rest, zero, false))
    else (let (m', head) = match_head m id rest in
        attempt m' head λ _. (m', err (Actuators.validate too_many_matches)))
match_level (suc budget) (id ∷ rest) m = elim (is_done m) [
  | true ↦ (m, ok (id ∷ rest, suc budget, false))
  | false ↦
      let (m', head) = match_head m id rest in
      attempt m' head λ (ids, stop). elim stop [
        | true ↦ (m', ok (ids, budget, true))
        | false ↦ match_level budget ids m'
      ]
]

-- The end of a round: the ids that are left of a price go back, and a price without any is dropped.
-- The answer is the budget that is left when the loop goes on.
unfoldable pub close_level :
    Bytes → ℤ × ℤ → Matching → List Bytes × ℕ × Bool → Matching × Result ActuatorError (Option ℕ)
unfolding put_order_ids remove_price
close_level pair best m (ids, left, stop) =
    let w = put_order_ids pair best ids m.world in
    elim ids [
      | [] ↦
          if stop
          then (record m { world = w }, ok none)
          else (record m { world = remove_price pair best w }, ok (some left))
      | _ ∷ _ ↦ (record m { world = w }, ok none)
    ]

-- One round of the outer loop over the prices of the makers' pair.
unfoldable pub match_round :
    Bytes → ℤ → ℤ → ℕ → Matching → Matching × Result ActuatorError (Option ℕ)
unfolding best_price price_match get_order_ids match_level close_level
match_round pair sell buy budget m = elim (is_done m) [
  | true ↦ (m, ok none)
  | false ↦ elim (best_price m.world pair) [
    | none ↦ (m, ok none)
    | some best ↦ elim (price_match sell buy best.0 best.1) [
      | false ↦ (m, ok none)
      | true ↦
          let (m₁, level) = match_level budget (get_order_ids m.world pair best) m in
          attempt m₁ level (close_level pair best m₁)
    ]
  ]
]

-- The outer loop, at most `rounds` times.
unfoldable pub match_rounds :
    ℕ → Bytes → ℤ → ℤ → ℕ → Matching → Matching × Result ActuatorError (Unit {0})
unfolding match_round
match_rounds zero pair sell buy budget m = (m, ok tt)
match_rounds (suc rounds) pair sell buy budget m =
    let (m', round) = match_round pair sell buy budget m in
    elim round [
      | err e ↦ (m', err e)
      | ok none ↦ (m', ok tt)
      | ok (some left) ↦ match_rounds rounds pair sell buy left m'
    ]

-- A round that goes on removes a price, so one round more than there are prices is enough.
unfoldable pub match_order : Matching → Matching × Result ActuatorError (Unit {0})
unfolding match_rounds pair_key get_prices
match_order m =
    let pair = pair_key m.taker.buy_token_id m.taker.sell_token_id in
    match_rounds (suc (length (get_prices m.world pair))) pair m.taker.sell_token_quantity
      m.taker.buy_token_quantity max_match_num m
