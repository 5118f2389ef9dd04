-- ===== src/Tests/Market.antt =====
-- The order book of crates/actuators/src/market at concrete inputs.
use tron_rs.Prelude.Endian.{i64_to_be, i64_from_be}
use tron_rs.Prelude.{
  if◌then◌else◌, All, Bytes, bytes_eq, ℤ, pos, ◌-ℤ◌, ◌*ℤ◌, quot_ℤ, wrap_i64, sub_i64, ◌≡◌, refl,
  none, some, [], ◌∷◌, arith,
}
use tron_rs.Tests.Toy.{zeros, no_market, blank_world, blank_account}
use tron_rs.State.World.{World, MarketOrder}
use tron_rs.Actuators.Market.{active, max_match_num}
use tron_rs.Actuators.Market.Book.Codec.{IsPrice}
use tron_rs.Actuators.Market.Cancel.{delist}
use tron_rs.Actuators.Market.{active, max_match_num}
use tron_rs.Prelude.Endian.{i64_to_be, i64_from_be}
use tron_rs.Actuators.Market.Price.{fill, Amounts}
use tron_rs.Actuators.Market.Price.Fair.{fill-IsFair, IsFair}
use tron_rs.Actuators.Market.Book.{
  price16, pair_price_key, get_prices, get_order_ids, add_order_to_book, pair_key, has_price,
  insert_price, remove_price,
}
use tron_rs.Actuators.Market.Book.View.{view, enqueue, add_order_to_book-view, dequeue}
use tron_rs.Actuators.Market.Book.Hidden.{hidden_order}
use tron_rs.Actuators.Market.Book.Remove.{delist-view}
use tron_rs.Actuators.Market.Book.Sorted.{prices-IsSorted, IsSorted}
use tron_rs.Actuators.Market.Sell.Match.{match_order, Matching, match_rounds}
use tron_rs.Actuators.Market.Sell.Rounds.{match_order_enough}

-- The pair of the tokens "1" and "_".
abbrev pair : Bytes
pair = 49 ∷ 0 ∷ 95 ∷ []

-- One unit for two.
abbrev price : ℤ × ℤ
price = (pos 1, pos 2)

abbrev first_id : Bytes
first_id = 1 ∷ zeros 31

abbrev second_id : Bytes
second_id = 2 ∷ zeros 31

abbrev book : World
book = record blank_world {
  accounts = λ a. none;
  brokerages = λ a. none;
  witnesses = λ a. none;
  exchanges = λ n. none;
  proposals = λ n. none;
  props = λ k. none;
  market = record no_market {
    pair_prices = λ p. some (price16 price);
    price_orders = λ k. if bytes_eq k (pair_price_key pair price) then some first_id else none;
  };
}

abbrev traded : Amounts
traded = record {
  taker_buy_receive = pos 8;
  maker_buy_receive = pos 6;
  taker_remain = pos 4;
  maker_remain = pos 0;
}

fill-IsFair_example : IsFair 10 4 3 8 traded
unfolding fill wrap_i64 quot_ℤ ◌*ℤ◌ sub_i64 ◌-ℤ◌
fill-IsFair_example =
    fill-IsFair 10 4 3 8 traded (omega arith) (omega arith) (omega arith) (omega arith)
      (omega arith) (omega arith) refl

price-IsPrice : IsPrice price
price-IsPrice = ((omega arith, omega arith), (omega arith, omega arith))

doubled-IsPrice : IsPrice (pos 2, pos 4)
doubled-IsPrice = ((omega arith, omega arith), (omega arith, omega arith))

book-IsPrice : All IsPrice (get_prices book pair)
unfolding get_prices price16 i64_to_be i64_from_be
book-IsPrice = (price-IsPrice, tt)

add_order_to_book-view_example :
    view (add_order_to_book pair price second_id book) pair
    ≡ (if bytes_eq pair pair then enqueue (view book pair) price second_id else view book pair)
add_order_to_book-view_example =
    add_order_to_book-view pair pair price second_id book refl price-IsPrice book-IsPrice

hidden_order_example :
    All
      (λ p.
        get_order_ids (add_order_to_book pair (pos 2, pos 4) second_id book) pair p
        ≡ get_order_ids book pair p)
      (get_prices (add_order_to_book pair (pos 2, pos 4) second_id book) pair)
unfolding get_prices price16 i64_to_be i64_from_be has_price ◌*ℤ◌ bytes_eq
hidden_order_example =
    hidden_order pair (pos 2, pos 4) second_id book refl doubled-IsPrice book-IsPrice refl
      (refl, tt)

abbrev offer : MarketOrder
offer = record {
  order_id = first_id;
  owner_address = 0x41 ∷ zeros 20;
  create_time = pos 0;
  sell_token_id = 49 ∷ [];
  sell_token_quantity = pos 1;
  buy_token_id = 95 ∷ [];
  buy_token_quantity = pos 2;
  sell_token_quantity_remain = pos 1;
  sell_token_quantity_return = pos 0;
  state = active;
}

delist-view_example :
    view (delist offer first_id book) pair
    ≡ (if bytes_eq pair pair then dequeue (view book pair) price first_id else view book pair)
unfolding pair_key
delist-view_example = delist-view offer first_id pair book book-IsPrice

prices-IsSorted_example :
    IsSorted (get_prices (insert_price pair (pos 2, pos 4) book) pair)
    × IsSorted (get_prices (remove_price pair (pos 2, pos 4) book) pair)
unfolding get_prices price16 i64_to_be i64_from_be
prices-IsSorted_example =
    prices-IsSorted pair (pos 2, pos 4) book doubled-IsPrice (omega arith, omega arith) book-IsPrice
      ((omega arith, omega arith), tt, tt)

abbrev seller : Matching
seller = record {
  world = book;
  taker = record offer {
    sell_token_id = 95 ∷ [];
    sell_token_quantity = pos 3;
    buy_token_id = 49 ∷ [];
    buy_token_quantity = pos 1;
    sell_token_quantity_remain = pos 3;
  };
  account = record blank_account {
    address = 0x41 ∷ zeros 20;
    create_time = pos 0;
    balance = pos 9;
    allowance = pos 0;
    latest_withdraw_time = pos 0;
    asset_v2 = [];
    frozen_v2 = [];
    unfrozen_v2 = [];
    votes = [];
  };
}

match_order_enough_example :
    match_rounds 5 pair (pos 3) (pos 1) max_match_num seller ≡ match_order seller
unfolding pair_key get_prices price16 i64_to_be i64_from_be
match_order_enough_example = match_order_enough 5 seller book-IsPrice (omega arith)
