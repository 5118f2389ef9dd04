-- ===== src/Actuators/Market/Book.antt =====
-- crates/actuators/src/market/order_book.rs: the index records of the order book, as the bytes that
-- are stored. A storage error does not happen here.
pub mod Codec
pub mod View
pub mod Remove
pub mod Hidden
pub mod Sorted
use tron_rs.Prelude.{
  ltb, ◌==◌, if◌then◌else◌, length, take, drop, Bytes, bytes_eq, ℤ, Result, ok, err, ℕ, zero, suc,
  ◌+◌, ◌*◌, ◌/◌, ◌%◌, ◌^◌, Bool, true, false, ◌||◌, Option, none, some, List, [], ◌∷◌, ◌++◌, map,
}
use Prim.Native.Nat.{Ordering}
use tron_rs.Prelude.Endian.{be_bytes, i64_to_be, i64_from_be}
use tron_rs.State.World.{World, MarketOrder, valid, read_cell}
use tron_rs.Actuators.{ActuatorError, panic, lift}
use tron_rs.Actuators.Market.Price.{cmp_maker_price}

unfoldable pub pair_key : Bytes → Bytes → Bytes
pair_key sell buy = sell ++ (0 ∷ buy)

unfoldable pub price16 : ℤ × ℤ → Bytes
price16 price = i64_to_be price.0 ++ i64_to_be price.1

unfoldable pub pair_price_key : Bytes → ℤ × ℤ → Bytes
unfolding price16
pair_price_key pair price = pair ++ price16 price

unfoldable pub get_order : World → Bytes → Result ActuatorError (Option MarketOrder)
unfolding lift read_cell
get_order w id = lift (read_cell (w.market.orders id))

abbrev pub set_order : MarketOrder → World → World
set_order order w = record w {
  market = record w.market {
    orders = λ id. if bytes_eq order.order_id id then some (valid order) else w.market.orders id;
  };
}

-- An id of another length than 32 panics in `copy_from_slice`.
unfoldable pub put_order : MarketOrder → World → Result ActuatorError World
put_order order w = if length order.order_id == 32 then ok (set_order order w) else err panic

-- `unwrap_or_default`
abbrev pub or_empty : Option Bytes → Bytes
or_empty none = []
or_empty (some bytes) = bytes

-- `bytes.chunks_exact(size)`: the first `count` chunks.
unfoldable pub chunks : ℕ → ℕ → Bytes → List Bytes
chunks zero size bytes = []
chunks (suc count) size bytes = take size bytes ∷ chunks count size (drop size bytes)

abbrev pub read_price : Bytes → ℤ × ℤ
read_price chunk = (i64_from_be (take 8 chunk), i64_from_be (drop 8 chunk))

unfoldable pub get_prices : World → Bytes → List (ℤ × ℤ)
unfolding chunks
get_prices w pair =
    let bytes = or_empty (w.market.pair_prices pair) in
    map read_price (chunks (length bytes / 16) 16 bytes)

-- `extend_from_slice` of each.
unfoldable pub concat : List Bytes → Bytes
concat [] = []
concat (x ∷ xs) = x ++ concat xs

-- Nothing is stored for an empty list.
abbrev pub stored : List Bytes → Option Bytes
stored [] = none
stored (x ∷ xs) = some (concat (x ∷ xs))

abbrev pub set_pair_prices : Bytes → Option Bytes → World → World
set_pair_prices pair bytes w = record w {
  market = record w.market {
    pair_prices = λ p. if bytes_eq pair p then bytes else w.market.pair_prices p;
  };
}

unfoldable pub put_prices : Bytes → List (ℤ × ℤ) → World → World
unfolding price16 concat
put_prices pair prices w = set_pair_prices pair (stored (map price16 prices)) w

abbrev pub is_eq : Ordering → Bool
is_eq Ordering.eq = true
is_eq _ = false

unfoldable pub has_price : List (ℤ × ℤ) → ℤ × ℤ → Bool
unfolding cmp_maker_price
has_price [] price = false
has_price (p ∷ prices) price = is_eq (cmp_maker_price p price) || has_price prices price

-- `prices.insert(pos, price)` at the place that `binary_search_by` finds in a sorted list without
-- the price: before the first one that is greater.
unfoldable pub insert_sorted : List (ℤ × ℤ) → ℤ × ℤ → List (ℤ × ℤ)
unfolding cmp_maker_price
insert_sorted [] price = price ∷ []
insert_sorted (p ∷ prices) price =
    let rest = insert_sorted prices price in
    elim (cmp_maker_price p price) [ Ordering.gt ↦ price ∷ p ∷ prices | _ ↦ p ∷ rest ]

unfoldable pub insert_price : Bytes → ℤ × ℤ → World → World
unfolding get_prices put_prices has_price insert_sorted
insert_price pair price w =
    let prices = get_prices w pair in
    if has_price prices price then w else put_prices pair (insert_sorted prices price) w

unfoldable pub drop_price : List (ℤ × ℤ) → ℤ × ℤ → List (ℤ × ℤ)
unfolding cmp_maker_price
drop_price [] price = []
drop_price (p ∷ prices) price =
    let rest = drop_price prices price in if is_eq (cmp_maker_price p price) then rest else p ∷ rest

-- The pairs, each behind its length in two bytes: the loop of `get_pairs`, at most `rounds` times.
unfoldable pub read_pairs : ℕ → Bytes → List Bytes
read_pairs zero bytes = []
read_pairs (suc rounds) [] = []
read_pairs (suc rounds) (a ∷ []) = []
read_pairs (suc rounds) (a ∷ b ∷ rest) =
    let len = a * 256 + b in
    let more = read_pairs rounds (drop len rest) in
    if ltb (length rest) len then [] else take len rest ∷ more

-- A round takes two bytes or more.
unfoldable pub get_pairs : World → List Bytes
unfolding read_pairs
get_pairs w = let bytes = or_empty w.market.all_pairs in read_pairs (length bytes) bytes

abbrev pub with_length : Bytes → Bytes
with_length pair = be_bytes 2 (length pair % 2 ^ 16) ++ pair

unfoldable pub put_pairs : List Bytes → World → World
unfolding concat be_bytes
put_pairs pairs w = record w {
  market = record w.market { all_pairs = stored (map with_length pairs) };
}

unfoldable pub list_has : List Bytes → Bytes → Bool
list_has [] x = false
list_has (y ∷ ys) x = bytes_eq y x || list_has ys x

-- `retain(|x| x != id)`
unfoldable pub list_drop : List Bytes → Bytes → List Bytes
list_drop [] x = []
list_drop (y ∷ ys) x = let rest = list_drop ys x in if bytes_eq y x then rest else y ∷ rest

unfoldable pub add_pair : Bytes → World → World
unfolding get_pairs put_pairs list_has
add_pair pair w =
    let pairs = get_pairs w in if list_has pairs pair then w else put_pairs (pairs ++ pair ∷ []) w

unfoldable pub remove_pair : Bytes → World → World
unfolding get_pairs put_pairs list_drop
remove_pair pair w = put_pairs (list_drop (get_pairs w) pair) w

-- When the pair's book empties, the pair is dropped too.
unfoldable pub remove_price : Bytes → ℤ × ℤ → World → World
unfolding get_prices put_prices drop_price remove_pair
remove_price pair price w =
    let prices = drop_price (get_prices w pair) price in
    let w' = put_prices pair prices w in elim prices [ [] ↦ remove_pair pair w' | _ ∷ _ ↦ w' ]

unfoldable pub best_price : World → Bytes → Option (ℤ × ℤ)
unfolding get_prices
best_price w pair = elim (get_prices w pair) [ [] ↦ none | p ∷ _ ↦ some p ]

-- 32 bytes each.
unfoldable pub read_ids : Option Bytes → List Bytes
unfolding chunks
read_ids bytes = chunks (length (or_empty bytes) / 32) 32 (or_empty bytes)

unfoldable pub get_order_ids : World → Bytes → ℤ × ℤ → List Bytes
unfolding pair_price_key read_ids
get_order_ids w pair price = read_ids (w.market.price_orders (pair_price_key pair price))

abbrev pub set_price_orders : Bytes → Option Bytes → World → World
set_price_orders key bytes w = record w {
  market = record w.market {
    price_orders = λ k. if bytes_eq key k then bytes else w.market.price_orders k;
  };
}

unfoldable pub put_order_ids : Bytes → ℤ × ℤ → List Bytes → World → World
unfolding pair_price_key concat
put_order_ids pair price ids w = set_price_orders (pair_price_key pair price) (stored ids) w

unfoldable pub add_order_to_book : Bytes → ℤ × ℤ → Bytes → World → World
unfolding get_order_ids put_order_ids insert_price add_pair
add_order_to_book pair price id w =
    let ids = get_order_ids w pair price ++ id ∷ [] in
    add_pair pair (insert_price pair price (put_order_ids pair price ids w))

unfoldable pub get_account_orders : World → Bytes → List Bytes
unfolding read_ids
get_account_orders w owner = read_ids (w.market.account_orders owner)

unfoldable pub put_account_orders : Bytes → List Bytes → World → World
unfolding concat
put_account_orders owner ids w = record w {
  market = record w.market {
    account_orders = λ a. if bytes_eq owner a then stored ids else w.market.account_orders a;
  };
}

unfoldable pub add_account_order : Bytes → Bytes → World → World
unfolding get_account_orders put_account_orders list_has
add_account_order owner id w =
    let ids = get_account_orders w owner in
    if list_has ids id then w else put_account_orders owner (ids ++ id ∷ []) w

unfoldable pub remove_account_order : Bytes → Bytes → World → World
unfolding get_account_orders put_account_orders list_drop
remove_account_order owner id w =
    put_account_orders owner (list_drop (get_account_orders w owner) id) w
