-- ===== src/Actuators/Market/Book/Remove.antt =====
-- `remove_price` of crates/actuators/src/market/order_book.rs, and `execute` of
-- crates/actuators/src/market/cancel.rs where it takes an order out of the book.
use tron_rs.Prelude.{
  if◌then◌else◌, length, All, Bytes, bytes_eq, ℤ, ◌≡◌, refl, ◌∙◌, true, false, List, [], ◌∷◌,
}
use tron_rs.State.World.{World, MarketOrder}
use tron_rs.Actuators.Market.Price.{cmp_maker_price}
use tron_rs.Actuators.Market.Book.{
  get_prices, pair_key, put_prices, is_eq, drop_price, put_pairs, list_drop, remove_pair,
  remove_price, get_order_ids, put_order_ids, put_account_orders, remove_account_order,
}
use tron_rs.Actuators.Market.Book.Codec.{IsPrice, get_prices-put_prices}
use tron_rs.Actuators.Market.Book.View.{
  view, dequeue, same_price, get_order_ids-Ids, same_pair, view_step, queue_step,
}
use tron_rs.Actuators.Market.Cancel.{delist}

get_prices-remove_pair :
    (pair p : Bytes) (w : World) → get_prices (remove_pair pair w) p ≡ get_prices w p
unfolding get_prices remove_pair put_pairs
get_prices-remove_pair pair p w = refl

pub All-drop_price :
    (prices : List (ℤ × ℤ)) (price : ℤ × ℤ)
    → All IsPrice prices
    → All IsPrice (drop_price prices price)
unfolding drop_price
All-drop_price [] price hs = tt
All-drop_price (p ∷ prices) price hs =
    elim (is_eq (cmp_maker_price p price))
      as (λ b. All IsPrice (if b then drop_price prices price else p ∷ drop_price prices price)) [
        | true ↦ All-drop_price prices price hs.1
        | false ↦ (hs.0, All-drop_price prices price hs.1)
      ]

pub get_prices-remove_price :
    (pair p : Bytes) (price : ℤ × ℤ) (w : World)
    → All IsPrice (get_prices w pair)
    → get_prices (remove_price pair price w) p
      ≡ (if bytes_eq pair p then drop_price (get_prices w pair) price else get_prices w p)
unfolding remove_price
get_prices-remove_price pair p price w hs =
    let prices = drop_price (get_prices w pair) price in
    let w' = put_prices pair prices w in
    elim prices
      as (λ l.
        get_prices (elim l [ [] ↦ remove_pair pair w' | _ ∷ _ ↦ w' ]) p
        ≡ (if bytes_eq pair p then prices else get_prices w p)) [
          | [] ↦
              get_prices-remove_pair pair p w'
              ∙ get_prices-put_prices pair p prices w (All-drop_price (get_prices w pair) price hs)
          | _ ∷ _ ↦
              get_prices-put_prices pair p prices w (All-drop_price (get_prices w pair) price hs)
        ]

pub get_order_ids-remove_price :
    (pair p : Bytes) (price q : ℤ × ℤ) (w : World)
    → get_order_ids (remove_price pair price w) p q ≡ get_order_ids w p q
unfolding remove_price get_order_ids put_prices remove_pair put_pairs
get_order_ids-remove_price pair p price q w =
    let prices = drop_price (get_prices w pair) price in
    let w' = put_prices pair prices w in
    elim prices
      as (λ l.
        get_order_ids (elim l [ [] ↦ remove_pair pair w' | _ ∷ _ ↦ w' ]) p q
        ≡ get_order_ids w p q) [ [] ↦ refl | _ ∷ _ ↦ refl ]

All-list_drop :
    (P : Bytes → Type 0) (ids : List Bytes) (id : Bytes) → All P ids → All P (list_drop ids id)
unfolding list_drop
All-list_drop P [] id hs = tt
All-list_drop P (x ∷ ids) id hs =
    elim (bytes_eq x id) as (λ b. All P (if b then list_drop ids id else x ∷ list_drop ids id)) [
      | true ↦ All-list_drop P ids id hs.1
      | false ↦ (hs.0, All-list_drop P ids id hs.1)
    ]

abbrev price_of : MarketOrder → ℤ × ℤ
price_of order = (order.sell_token_quantity, order.buy_token_quantity)

abbrev pair_of : MarketOrder → Bytes
pair_of order = pair_key order.sell_token_id order.buy_token_id

abbrev after : List Bytes → Bytes → ℤ × ℤ → World → World
after ids pair price w = elim ids [ [] ↦ remove_price pair price w | _ ∷ _ ↦ w ]

get_prices-after :
    (ids : List Bytes) (pair p : Bytes) (price : ℤ × ℤ) (w : World)
    → All IsPrice (get_prices w pair)
    → get_prices (after ids pair price w) p ≡ (
        if bytes_eq pair p
        then elim ids [ [] ↦ drop_price (get_prices w pair) price | _ ∷ _ ↦ get_prices w pair ]
        else get_prices w p)
get_prices-after [] pair p price w hs = get_prices-remove_price pair p price w hs
get_prices-after (_ ∷ _) pair p price w hs = same_pair (get_prices w) pair p

get_order_ids-after :
    (ids : List Bytes) (pair p : Bytes) (price q : ℤ × ℤ) (w : World)
    → get_order_ids (after ids pair price w) p q ≡ get_order_ids w p q
get_order_ids-after [] pair p price q w = get_order_ids-remove_price pair p price q w
get_order_ids-after (_ ∷ _) pair p price q w = refl

reads-remove_account_order :
    (owner id p : Bytes) (q : ℤ × ℤ) (w : World)
    → (get_prices (remove_account_order owner id w) p ≡ get_prices w p)
      × (get_order_ids (remove_account_order owner id w) p q ≡ get_order_ids w p q)
unfolding get_prices get_order_ids remove_account_order put_account_orders
reads-remove_account_order owner id p q w = (refl, refl)

-- With the prices of its pair in range, a cancelled order turns what the records say of its pair into
-- what `dequeue` makes of it, at the price that its own quantities name, and no other pair changes.
pub delist-view :
    (order : MarketOrder) (id p : Bytes) (w : World)
    → All IsPrice (get_prices w (pair_of order))
    → view (delist order id w) p ≡ (
        if bytes_eq (pair_of order) p
        then dequeue (view w (pair_of order)) (price_of order) id
        else view w p)
unfolding delist
delist-view order id p w hs =
    let pair = pair_of order in
    let price = price_of order in
    let ids = list_drop (get_order_ids w pair price) id in
    let w₁ = put_order_ids pair price ids w in
    let w₂ = after ids pair price w₁ in
    let same = reads-remove_account_order order.owner_address id p in
    view_step pair p w (remove_account_order order.owner_address id w₂)
      (elim ids [ [] ↦ drop_price (get_prices w pair) price | _ ∷ _ ↦ get_prices w pair ])
      (λ q. if same_price price q then ids else get_order_ids w pair q)
      ((same price w₂).0 ∙ get_prices-after ids pair p price w₁ hs)
      (λ q.
        (same q w₂).1
        ∙ get_order_ids-after ids pair p price q w₁
        ∙ queue_step pair p price q ids w (
            All-list_drop (λ i. length i ≡ 32) (get_order_ids w pair price) id
              (get_order_ids-Ids w pair price)))
