-- ===== src/Actuators/Market/Book/Sorted.antt =====
-- `insert_price`, `remove_price` and `best_price` of crates/actuators/src/market/order_book.rs keep the
-- prices in order.
use tron_rs.Prelude.Endian.{bytes_eq_refl}
use tron_rs.Prelude.{
  if◌then◌else◌, Bool-cases, All, Bytes, ℤ, pos, pos_part, ◌*ℤ◌, ◌<ℤ◌, ℕ, ◌*◌, ◌≤◌, ◌<◌, ◌≡◌, refl,
  ◌⊎◌, inl, inr, true, false, List, [], ◌∷◌, arith,
}
use Prim.Native.Nat.{Ordering}
use tron_rs.Actuators.Market.Price.{cmp_maker_price, compare_price}
use tron_rs.State.World.{World}
use tron_rs.Actuators.Market.Book.Codec.{IsPrice}
use tron_rs.Actuators.Market.Book.View.{get_prices-insert_price}
use tron_rs.Actuators.Market.Book.Remove.{get_prices-remove_price}
use tron_rs.Actuators.Market.Book.{
  insert_sorted, is_eq, has_price, drop_price, get_prices, insert_price, remove_price,
}

-- What is sold and what is bought are above 0.
abbrev pub IsPositive : ℤ × ℤ → Type 0
IsPositive p = (pos 0 <ℤ p.0) × (pos 0 <ℤ p.1)

-- The first price asks for strictly less per unit that is sold.
abbrev pub Cheaper : ℤ × ℤ → ℤ × ℤ → Type 0
Cheaper p q = pos_part p.1 * pos_part q.0 < pos_part q.1 * pos_part p.0

-- Each price is cheaper than all that follow.
abbrev pub IsSorted : List (ℤ × ℤ) → Type 0
IsSorted [] = Unit
IsSorted (p ∷ prices) = IsPositive p × All (Cheaper p) prices × IsSorted prices

times : (a b c : ℕ) → a ≤ b → a * c ≤ b * c
times a b c h = grind arith

times_lt : (a b c : ℕ) → a < b → 0 < c → a * c < b * c
times_lt a b c h k = grind arith

cross :
    (p₀ p₁ q₀ q₁ r₀ r₁ : ℕ)
    → p₁ * q₀ < q₁ * p₀
    → q₁ * r₀ < r₁ * q₀
    → r₁ * p₀ ≤ p₁ * r₀
    → r₁ * p₀ < r₁ * p₀
cross p₀ p₁ q₀ q₁ r₀ r₁ pq qr le =
    let p_pos : 0 < p₀ = ground arith in
    let a = times (p₁ * q₀) (q₁ * p₀) r₀ (omega arith) in
    let b = times_lt (q₁ * r₀) (r₁ * q₀) p₀ qr p_pos in
    let c = times (r₁ * p₀) (p₁ * r₀) q₀ le in omega (arith, a, b, c)

Cheaper-trans : (p q r : ℤ × ℤ) → Cheaper p q → Cheaper q r → Cheaper p r
Cheaper-trans p q r pq qr = ground (
  arith,
  cross (pos_part p.0) (pos_part p.1) (pos_part q.0) (pos_part q.1) (pos_part r.0) (pos_part r.1) pq
      qr,
)

cmp_lt :
    (p q : ℤ × ℤ) → IsPositive p → IsPositive q → cmp_maker_price p q ≡ Ordering.lt → Cheaper p q
unfolding cmp_maker_price compare_price ◌*ℤ◌
cmp_lt p q hp hq e = ground arith

cmp_gt :
    (p q : ℤ × ℤ) → IsPositive p → IsPositive q → cmp_maker_price p q ≡ Ordering.gt → Cheaper q p
unfolding cmp_maker_price compare_price ◌*ℤ◌
cmp_gt p q hp hq e = ground arith

Ordering-cases : (o : Ordering) → (o ≡ Ordering.lt) ⊎ ((o ≡ Ordering.eq) ⊎ (o ≡ Ordering.gt))
Ordering-cases Ordering.lt = inl refl
Ordering-cases Ordering.eq = inr (inl refl)
Ordering-cases Ordering.gt = inr (inr refl)

All-Cheaper :
    (p q : ℤ × ℤ) (prices : List (ℤ × ℤ))
    → Cheaper p q
    → All (Cheaper q) prices
    → All (Cheaper p) prices
All-Cheaper p q [] h hs = tt
All-Cheaper p q (r ∷ prices) h hs = (Cheaper-trans p q r h hs.0, All-Cheaper p q prices h hs.1)

All-insert :
    (P : ℤ × ℤ → Type 0) (prices : List (ℤ × ℤ)) (price : ℤ × ℤ)
    → P price
    → All P prices
    → All P (insert_sorted prices price)
unfolding insert_sorted
All-insert P [] price h hs = (h, tt)
All-insert P (p ∷ prices) price h hs =
    elim (cmp_maker_price p price)
      as (λ o.
        All P (elim o [ Ordering.gt ↦ price ∷ p ∷ prices | _ ↦ p ∷ insert_sorted prices price ])) [
          | Ordering.gt ↦ (h, hs)
          | _ ↦ (hs.0, All-insert P prices price h hs.1)
        ]

All-drop :
    (P : ℤ × ℤ → Type 0) (prices : List (ℤ × ℤ)) (price : ℤ × ℤ)
    → All P prices
    → All P (drop_price prices price)
unfolding drop_price
All-drop P [] price hs = tt
All-drop P (p ∷ prices) price hs =
    elim (is_eq (cmp_maker_price p price))
      as (λ b. All P (if b then drop_price prices price else p ∷ drop_price prices price)) [
        | true ↦ All-drop P prices price hs.1
        | false ↦ (hs.0, All-drop P prices price hs.1)
      ]

insert_sorted-IsSorted :
    (prices : List (ℤ × ℤ)) (price : ℤ × ℤ)
    → IsPositive price
    → IsSorted prices
    → has_price prices price ≡ false
    → IsSorted (insert_sorted prices price)
unfolding insert_sorted has_price
insert_sorted-IsSorted [] price h hs new = (h, tt, tt)
insert_sorted-IsSorted (p ∷ prices) price h hs new =
    let below : Cheaper p price → IsSorted (p ∷ insert_sorted prices price) = λ lt. (
      hs.0,
      All-insert (Cheaper p) prices price lt hs.1,
      insert_sorted-IsSorted prices price h hs.2 (ground arith),
    ) in
    elim (Ordering-cases (cmp_maker_price p price)) [
      | inl lt ↦ rw (lt, insert_sorted) (below (cmp_lt p price hs.0 h lt))
      | inr (inl eq) ↦ ground (arith, eq)
      | inr (inr gt) ↦
          let less = cmp_gt p price hs.0 h gt in
          rw (gt, insert_sorted) (h, (less, All-Cheaper price p prices less hs.1), hs)
    ]

drop_price-IsSorted :
    (prices : List (ℤ × ℤ)) (price : ℤ × ℤ) → IsSorted prices → IsSorted (drop_price prices price)
unfolding drop_price
drop_price-IsSorted [] price hs = tt
drop_price-IsSorted (p ∷ prices) price hs = elim (Bool-cases (is_eq (cmp_maker_price p price))) [
  | inl e ↦ rw e (drop_price-IsSorted prices price hs.2)
  | inr e ↦
      rw e (hs.0, All-drop (Cheaper p) prices price hs.1, drop_price-IsSorted prices price hs.2)
]

-- If the listed prices are strictly increasing and in range, they are after a price that is in range and
-- positive has been added, and after it has been removed.
pub prices-IsSorted :
    (pair : Bytes) (price : ℤ × ℤ) (w : World)
    → IsPrice price
    → IsPositive price
    → All IsPrice (get_prices w pair)
    → IsSorted (get_prices w pair)
    → IsSorted (get_prices (insert_price pair price w) pair)
      × IsSorted (get_prices (remove_price pair price w) pair)
prices-IsSorted pair price w h k hs sorted =
    let prices = get_prices w pair in
    let inserted : IsSorted
        (if has_price prices price then prices else insert_sorted prices price) =
      elim (Bool-cases (has_price prices price)) [
        | inl e ↦ rw e sorted
        | inr e ↦ rw e (insert_sorted-IsSorted prices price k sorted e)
      ] in
    (
      rw (get_prices-insert_price pair pair price w h hs, bytes_eq_refl pair) inserted,
      rw (get_prices-remove_price pair pair price w hs, bytes_eq_refl pair)
          (drop_price-IsSorted prices price sorted),
    )
