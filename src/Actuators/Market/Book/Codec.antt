-- ===== src/Actuators/Market/Book/Codec.antt =====
-- What is written to the index records of crates/actuators/src/market/order_book.rs reads back.
use tron_rs.Prelude.{
  if◌then◌else◌, Bool-cases, length, All, length-append, take-append, drop-append, Bytes, bytes_eq,
  ℤ, IsI64, ℕ, ◌*◌, ◌/◌, ◌≡◌, refl, inl, inr, List, [], ◌∷◌, map, arith,
}
use tron_rs.Prelude.Endian.{i64_to_be, length-i64_to_be, i64_from_be-i64_to_be}
use tron_rs.State.World.{World}
use tron_rs.Actuators.Market.Book.{
  chunks, price16, pair_price_key, or_empty, read_price, get_prices, concat, stored, put_prices,
  read_ids, get_order_ids, put_order_ids, get_account_orders, put_account_orders,
}

pub length-concat :
    (size : ℕ) (xs : List Bytes)
    → All (λ x. length x ≡ size) xs
    → length (concat xs) ≡ length xs * size
unfolding concat
length-concat size [] h = omega arith
length-concat size (x ∷ xs) h =
    omega (arith, length-append x (concat xs), length-concat size xs h.1, h.0)

pub chunks-concat :
    (size : ℕ) (xs : List Bytes)
    → All (λ x. length x ≡ size) xs
    → chunks (length xs) size (concat xs) ≡ xs
unfolding chunks concat
chunks-concat size [] h = refl
chunks-concat size (x ∷ xs) h = rw (
  take-append size x (concat xs) h.0,
  drop-append size x (concat xs) h.0,
  chunks-concat size xs h.1,
)

-- What `stored` leaves reads as the same chunks.
or_empty-stored : (xs : List Bytes) → or_empty (stored xs) ≡ concat xs
unfolding concat
or_empty-stored [] = refl
or_empty-stored (x ∷ xs) = refl

pub length-price16 : (price : ℤ × ℤ) → length (price16 price) ≡ 16
unfolding price16
length-price16 price = omega (
  arith,
  length-append (i64_to_be price.0) (i64_to_be price.1),
  length-i64_to_be price.0,
  length-i64_to_be price.1,
)

-- Both quantities are in range.
abbrev pub IsPrice : ℤ × ℤ → Type 0
IsPrice price = IsI64 price.0 × IsI64 price.1

read_price-price16 : (price : ℤ × ℤ) → IsPrice price → read_price (price16 price) ≡ price
unfolding price16
read_price-price16 price h = rw (
  take-append 8 (i64_to_be price.0) (i64_to_be price.1) (length-i64_to_be price.0),
  drop-append 8 (i64_to_be price.0) (i64_to_be price.1) (length-i64_to_be price.0),
  i64_from_be-i64_to_be price.0 h.0,
  i64_from_be-i64_to_be price.1 h.1,
)

map-read_price :
    (prices : List (ℤ × ℤ)) → All IsPrice prices → map read_price (map price16 prices) ≡ prices
map-read_price [] h = refl
map-read_price (p ∷ prices) h = rw (read_price-price16 p h.0, map-read_price prices h.1)

All-price16 : (prices : List (ℤ × ℤ)) → All (λ x. length x ≡ 16) (map price16 prices)
All-price16 [] = tt
All-price16 (p ∷ prices) = (length-price16 p, All-price16 prices)

chunks_back :
    (size count : ℕ) (xs : List Bytes)
    → All (λ x. length x ≡ size) xs
    → count ≡ length xs
    → chunks count size (concat xs) ≡ xs
chunks_back size count xs h e = rw e (chunks-concat size xs h)

-- The list of prices that is put for a pair is the one that is read, and the other pairs keep theirs.
pub get_prices-put_prices :
    (pair p : Bytes) (prices : List (ℤ × ℤ)) (w : World)
    → All IsPrice prices
    → get_prices (put_prices pair prices w) p ≡ (if bytes_eq pair p then prices else get_prices w p)
unfolding get_prices put_prices
get_prices-put_prices pair p prices w h = elim (Bool-cases (bytes_eq pair p)) [
  | inl same ↦
      let chunked = map price16 prices in
      rw
        (
          same,
          or_empty-stored chunked,
          length-concat 16 chunked (All-price16 prices),
          chunks_back 16 (length chunked * 16 / 16) chunked (All-price16 prices) (omega arith),
        )
        (map-read_price prices h)
  | inr other ↦ rw other
]

-- A list of order ids.
abbrev pub Ids : List Bytes → Type 0
Ids = All (λ id. length id ≡ 32)

read_ids-stored : (ids : List Bytes) → Ids ids → read_ids (stored ids) ≡ ids
unfolding read_ids
read_ids-stored ids h =
    rw (or_empty-stored ids, length-concat 32 ids h)
      (chunks_back 32 (length ids * 32 / 32) ids h (omega arith))

pub get_order_ids-put_order_ids :
    (pair p : Bytes) (price q : ℤ × ℤ) (ids : List Bytes) (w : World)
    → Ids ids
    → get_order_ids (put_order_ids pair price ids w) p q ≡ (
        if bytes_eq (pair_price_key pair price) (pair_price_key p q)
        then ids
        else get_order_ids w p q)
unfolding get_order_ids put_order_ids
get_order_ids-put_order_ids pair p price q ids w h =
    elim (Bool-cases (bytes_eq (pair_price_key pair price) (pair_price_key p q))) [
      | inl same ↦ rw same (read_ids-stored ids h)
      | inr other ↦ rw other
    ]

pub get_account_orders-put_account_orders :
    (owner a : Bytes) (ids : List Bytes) (w : World)
    → Ids ids
    → get_account_orders (put_account_orders owner ids w) a
      ≡ (if bytes_eq owner a then ids else get_account_orders w a)
unfolding get_account_orders put_account_orders
get_account_orders-put_account_orders owner a ids w h = elim (Bool-cases (bytes_eq owner a)) [
  | inl same ↦ rw same (read_ids-stored ids h)
  | inr other ↦ rw other
]
