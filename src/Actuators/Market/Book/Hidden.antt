-- ===== src/Actuators/Market/Book/Hidden.antt =====
-- The orders of crates/actuators/src/market/order_book.rs that no listed price leads to.
use tron_rs.Prelude.Endian.{bytes_eq_refl}
use mathlib.Core.Path.{subst}
use tron_rs.Prelude.{
  if◌then◌else◌, length, All, Bytes, ℤ, ◌≡◌, refl, sym, ◌∙◌, true, false, List, [], ◌∷◌, ◌++◌,
}
use tron_rs.State.World.{World}
use tron_rs.Actuators.Market.Book.{get_prices, has_price, get_order_ids, add_order_to_book}
use tron_rs.Actuators.Market.Book.Codec.{IsPrice}
use tron_rs.Actuators.Market.Book.View.{view, same_price, enqueue, add_order_to_book-view}

unmoved :
    (price : ℤ × ℤ) (ids : List Bytes) (queue : ℤ × ℤ → List Bytes) (prices : List (ℤ × ℤ))
    → All (λ p. same_price price p ≡ false) prices
    → All (λ p. (if same_price price p then ids else queue p) ≡ queue p) prices
unmoved price ids queue [] h = tt
unmoved price ids queue (p ∷ prices) h = (rw h.0 refl, unmoved price ids queue prices h.1)

-- When a listed price has the same value as the order's but none is stored as the same bytes, as for 1
-- for 2 and 2 for 4, adding the order (an id of 32 bytes, prices in range) changes the queue of no
-- price that is listed afterwards.
pub hidden_order :
    (pair : Bytes) (price : ℤ × ℤ) (id : Bytes) (w : World)
    → length id ≡ 32
    → IsPrice price
    → All IsPrice (get_prices w pair)
    → has_price (get_prices w pair) price ≡ true
    → All (λ p. same_price price p ≡ false) (get_prices w pair)
    → All
        (λ p. get_order_ids (add_order_to_book pair price id w) pair p ≡ get_order_ids w pair p)
        (get_prices (add_order_to_book pair price id w) pair)
hidden_order pair price id w len h hs known apart =
    let old = view w pair in
    let added : view (add_order_to_book pair price id w) pair ≡ enqueue old price id =
      add_order_to_book-view pair pair price id w len h hs ∙ rw (bytes_eq_refl pair) refl in
    subst (λ v. All (λ p. v.queue p ≡ old.queue p) v.prices) (sym added)
      (rw known (unmoved price (old.queue price ++ id ∷ []) old.queue old.prices apart))
