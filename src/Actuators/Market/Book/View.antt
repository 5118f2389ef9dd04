-- ===== src/Actuators/Market/Book/View.antt =====
-- What the index records of crates/actuators/src/market/order_book.rs say of one pair: the prices in
-- the order in which they are met, and the queue of each price.
use tron_rs.Prelude.Endian.{bytes_eq_iff}
use tron_rs.Prelude.{
  if◌then◌else◌, Bool-cases, length, drop, All, length-append, length-take, length-drop, All-append,
  Bytes, bytes_eq, ℤ, ℕ, zero, suc, ◌*◌, ◌/◌, ◌≤◌, ◌≡◌, refl, sym, ap, ◌∙◌, ◌≢◌, inl, inr, Bool,
  false, ◌&&◌, List, [], ◌∷◌, ◌++◌, arith,
}
use tron_rs.State.World.{World}
use Prim.Native.Nat.{Ordering}
use tron_rs.Actuators.Market.Price.{cmp_maker_price}
use tron_rs.Actuators.Market.Book.{
  get_prices, price16, pair_price_key, or_empty, chunks, has_price, insert_sorted, read_ids,
  get_order_ids, put_prices, insert_price, get_pairs, put_pairs, list_has, add_pair, put_order_ids,
  add_order_to_book, drop_price, list_drop,
}
use tron_rs.Actuators.Market.Book.Codec.{
  IsPrice, Ids, length-price16, get_prices-put_prices, get_order_ids-put_order_ids,
}

pub record BookView : Type 0 where
  pub prices : List (ℤ × ℤ)
  pub queue : ℤ × ℤ → List Bytes

abbrev pub view : World → Bytes → BookView
view w pair = record { prices = get_prices w pair; queue = get_order_ids w pair }

-- Prices that are stored as the same sixteen bytes.
abbrev pub same_price : ℤ × ℤ → ℤ × ℤ → Bool
same_price p q = bytes_eq (price16 p) (price16 q)

-- An order goes to the end of the queue of its price, and a price of another value is listed.
abbrev pub enqueue : BookView → ℤ × ℤ → Bytes → BookView
enqueue book price id = record {
  prices = if has_price book.prices price then book.prices else insert_sorted book.prices price;
  queue = λ q. if same_price price q then book.queue price ++ id ∷ [] else book.queue q;
}

-- An order leaves the queue of its price, and the price goes when its queue empties.
abbrev pub dequeue : BookView → ℤ × ℤ → Bytes → BookView
dequeue book price id =
    let left = list_drop (book.queue price) id in
    record {
      prices = elim left [ [] ↦ drop_price book.prices price | _ ∷ _ ↦ book.prices ];
      queue = λ q. if same_price price q then left else book.queue q;
    }

bytes_eq-length : (x y : Bytes) → length x ≢ length y → bytes_eq x y ≡ false
unfolding bytes_eq
bytes_eq-length [] [] h = elim (h refl) [ ]
bytes_eq-length [] (b ∷ y) h = refl
bytes_eq-length (a ∷ x) [] h = refl
bytes_eq-length (a ∷ x) (b ∷ y) h = ground (arith, bytes_eq-length x y)

-- A prefix and a rest of one length: no key is made in two ways.
pub bytes_eq-append :
    (p q x y : Bytes)
    → length x ≡ length y
    → bytes_eq (p ++ x) (q ++ y) ≡ (bytes_eq p q && bytes_eq x y)
unfolding bytes_eq
bytes_eq-append [] [] x y h = refl
bytes_eq-append [] (b ∷ q) x y h = bytes_eq-length x (b ∷ q ++ y) (omega (arith, length-append q y))
bytes_eq-append (a ∷ p) [] x y h = bytes_eq-length (a ∷ p ++ x) y (omega (arith, length-append p x))
bytes_eq-append (a ∷ p) (b ∷ q) x y h = ground (arith, bytes_eq-append p q x y h)

key_eq :
    (p q : Bytes) (a b : ℤ × ℤ)
    → bytes_eq (pair_price_key p a) (pair_price_key q b) ≡ (bytes_eq p q && same_price a b)
unfolding pair_price_key
key_eq p q a b =
    bytes_eq-append p q (price16 a) (price16 b) (length-price16 a ∙ sym (length-price16 b))

-- Every id that is read has 32 bytes.
chunks-exact :
    (count size : ℕ) (bytes : Bytes)
    → count * size ≤ length bytes
    → All (λ x. length x ≡ size) (chunks count size bytes)
unfolding chunks
chunks-exact zero size bytes h = tt
chunks-exact (suc count) size bytes h = (
  length-take size bytes (omega arith),
  chunks-exact count size (drop size bytes) (omega (arith, length-drop size bytes)),
)

pub get_order_ids-Ids :
    (w : World) (pair : Bytes) (price : ℤ × ℤ) → Ids (get_order_ids w pair price)
unfolding get_order_ids read_ids
get_order_ids-Ids w pair price =
    let bytes = or_empty (w.market.price_orders (pair_price_key pair price)) in
    chunks-exact (length bytes / 32) 32 bytes (omega arith)

get_prices-add_pair : (pair p : Bytes) (w : World) → get_prices (add_pair pair w) p ≡ get_prices w p
unfolding get_prices add_pair put_pairs
get_prices-add_pair pair p w = elim (Bool-cases (list_has (get_pairs w) pair)) [
  | inl e ↦ rw e refl
  | inr e ↦ rw e refl
]

get_order_ids-add_pair :
    (pair p : Bytes) (q : ℤ × ℤ) (w : World)
    → get_order_ids (add_pair pair w) p q ≡ get_order_ids w p q
unfolding get_order_ids add_pair put_pairs
get_order_ids-add_pair pair p q w = elim (Bool-cases (list_has (get_pairs w) pair)) [
  | inl e ↦ rw e refl
  | inr e ↦ rw e refl
]

get_order_ids-insert_price :
    (pair p : Bytes) (price q : ℤ × ℤ) (w : World)
    → get_order_ids (insert_price pair price w) p q ≡ get_order_ids w p q
unfolding get_order_ids insert_price put_prices
get_order_ids-insert_price pair p price q w =
    elim (Bool-cases (has_price (get_prices w pair) price)) [
      | inl e ↦ rw e refl
      | inr e ↦ rw e refl
    ]

pub get_prices-put_order_ids :
    (pair p : Bytes) (price : ℤ × ℤ) (ids : List Bytes) (w : World)
    → get_prices (put_order_ids pair price ids w) p ≡ get_prices w p
unfolding get_prices put_order_ids
get_prices-put_order_ids pair p price ids w = refl

All-insert_sorted :
    (prices : List (ℤ × ℤ)) (price : ℤ × ℤ)
    → IsPrice price
    → All IsPrice prices
    → All IsPrice (insert_sorted prices price)
unfolding insert_sorted
All-insert_sorted [] price h hs = (h, tt)
All-insert_sorted (p ∷ prices) price h hs =
    elim (cmp_maker_price p price)
      as (λ o.
        All IsPrice
          (elim o [ Ordering.gt ↦ price ∷ p ∷ prices | _ ↦ p ∷ insert_sorted prices price ])) [
            | Ordering.gt ↦ (h, hs)
            | _ ↦ (hs.0, All-insert_sorted prices price h hs.1)
          ]

abbrev listed : List (ℤ × ℤ) → ℤ × ℤ → List (ℤ × ℤ)
listed prices price = if has_price prices price then prices else insert_sorted prices price

-- A case split on whether a pair is the named one, where the two sides agree.
pub same_pair :
    {A : Type 0} (read : Bytes → A) (pair p : Bytes)
    → read p ≡ (if bytes_eq pair p then read pair else read p)
same_pair read pair p = elim (Bool-cases (bytes_eq pair p)) [
  | inl same ↦ rw same (ap read (sym ((bytes_eq_iff pair p).0 same)))
  | inr other ↦ rw other refl
]

pub get_prices-insert_price :
    (pair p : Bytes) (price : ℤ × ℤ) (w : World)
    → IsPrice price
    → All IsPrice (get_prices w pair)
    → get_prices (insert_price pair price w) p
      ≡ (if bytes_eq pair p then listed (get_prices w pair) price else get_prices w p)
unfolding insert_price
get_prices-insert_price pair p price w h hs =
    let prices = get_prices w pair in
    elim (Bool-cases (has_price prices price)) [
      | inl e ↦ rw e (same_pair (get_prices w) pair p)
      | inr e ↦ rw e (
          get_prices-put_prices pair p (insert_sorted prices price) w
            (All-insert_sorted prices price h hs))
    ]

view_eq : (a b : BookView) → a.prices ≡ b.prices → ((q : ℤ × ℤ) → a.queue q ≡ b.queue q) → a ≡ b
view_eq a b e h = λ i. record { prices = e i; queue = λ q. h q i }

-- What two reads say of the pair that is written and of the others is what the view becomes.
pub view_step :
    (pair p : Bytes) (w w' : World) (prices : List (ℤ × ℤ)) (queue : ℤ × ℤ → List Bytes)
    → get_prices w' p ≡ (if bytes_eq pair p then prices else get_prices w p)
    → ((q : ℤ × ℤ)
        → get_order_ids w' p q ≡ (if bytes_eq pair p then queue q else get_order_ids w p q))
    → view w' p
      ≡ (if bytes_eq pair p then (record { prices = prices; queue = queue }) else view w p)
view_step pair p w w' prices queue e h = elim (Bool-cases (bytes_eq pair p)) [
  | inl same ↦ rw same (
      view_eq (view w' p) (record { prices = prices; queue = queue }) (e ∙ rw same refl)
        (λ q. h q ∙ rw same refl))
  | inr other ↦
      rw other (view_eq (view w' p) (view w p) (e ∙ rw other refl) (λ q. h q ∙ rw other refl))
]

-- A queue that is written is read at its own key.
pub queue_step :
    (pair p : Bytes) (price q : ℤ × ℤ) (ids : List Bytes) (w : World)
    → Ids ids
    → get_order_ids (put_order_ids pair price ids w) p q ≡ (
        if bytes_eq pair p
        then (if same_price price q then ids else get_order_ids w pair q)
        else get_order_ids w p q)
queue_step pair p price q ids w h =
    get_order_ids-put_order_ids pair p price q ids w h
    ∙ rw (key_eq pair p price q) (elim (Bool-cases (bytes_eq pair p)) [
      | inl same ↦ rw (same, (bytes_eq_iff pair p).0 same) refl
      | inr other ↦ rw other refl
    ])

-- With an id of 32 bytes, and a price and listed prices in range, what the records say of the named
-- pair becomes what `enqueue` makes of it, and what they say of every other pair stays.
pub add_order_to_book-view :
    (pair p : Bytes) (price : ℤ × ℤ) (id : Bytes) (w : World)
    → length id ≡ 32
    → IsPrice price
    → All IsPrice (get_prices w pair)
    → view (add_order_to_book pair price id w) p
      ≡ (if bytes_eq pair p then enqueue (view w pair) price id else view w p)
unfolding add_order_to_book
add_order_to_book-view pair p price id w len h hs =
    let ids = get_order_ids w pair price ++ id ∷ [] in
    let w₁ = put_order_ids pair price ids w in
    let w₂ = insert_price pair price w₁ in
    view_step pair p w (add_pair pair w₂) (listed (get_prices w pair) price)
      (λ q. if same_price price q then ids else get_order_ids w pair q)
      (get_prices-add_pair pair p w₂ ∙ get_prices-insert_price pair p price w₁ h hs)
      (λ q.
        get_order_ids-add_pair pair p q w₂
        ∙ get_order_ids-insert_price pair p price q w₁
        ∙ queue_step pair p price q ids w (
            All-append (λ i. length i ≡ 32) (get_order_ids w pair price) (id ∷ [])
              (get_order_ids-Ids w pair price) (len, tt)))
