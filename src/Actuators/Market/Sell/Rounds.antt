-- ===== src/Actuators/Market/Sell/Rounds.antt =====
-- The loop of `match_order` of crates/actuators/src/market/sell.rs ends: a round that goes on has taken
-- a price out of the makers' list.
use tron_rs.Prelude.Endian.{bytes_eq_refl}
use tron_rs.Prelude.{
  Bool-cases, length, All, Bytes, ℤ, Result, ok, err, ℕ, zero, suc, ◌/◌, ◌≤◌, ◌<◌, ◌≡◌, refl, sym,
  ap, ◌∙◌, inl, inr, Bool, true, false, Option, none, some, List, [], ◌∷◌, map, arith,
}
use tron_rs.State.World.{World}
use tron_rs.Actuators.{ActuatorError, attempt}
use tron_rs.Actuators.Market.{max_match_num}
use tron_rs.Actuators.Market.Price.{cmp_maker_price, compare_price, price_match}
use tron_rs.Actuators.Market.Book.{
  get_prices, or_empty, chunks, read_price, is_eq, drop_price, best_price, remove_price,
  put_order_ids, get_order_ids, pair_key,
}
use tron_rs.Actuators.Market.Book.Codec.{IsPrice}
use tron_rs.Actuators.Market.Book.View.{get_prices-put_order_ids}
use tron_rs.Actuators.Market.Book.Remove.{get_prices-remove_price, All-drop_price}
use tron_rs.Actuators.Market.Sell.Match.{
  Matching, match_round, match_rounds, is_done, close_level, match_level, match_order,
}
use tron_rs.Actuators.Market.Sell.Keeps.{lists, match_level-Keeps}

get_prices-lists :
    (v w : World) (pair : Bytes) → lists v ≡ lists w → get_prices v pair ≡ get_prices w pair
unfolding get_prices
get_prices-lists v w pair e =
    ap (λ f. let bytes = or_empty (f pair) in map read_price (chunks (length bytes / 16) 16 bytes))
      e

cmp_self : (p : ℤ × ℤ) → is_eq (cmp_maker_price p p) ≡ true
unfolding cmp_maker_price compare_price
cmp_self p = ground arith

length-drop_price_le :
    (prices : List (ℤ × ℤ)) (p : ℤ × ℤ) → length (drop_price prices p) ≤ length prices
unfolding drop_price
length-drop_price_le [] p = omega arith
length-drop_price_le (q ∷ prices) p = ground (arith, length-drop_price_le prices p)

-- When the loop goes on, the pair has fewer than `n` prices.
pub record Shrinks (n : ℕ) (pair : Bytes) (r : Matching × Result ActuatorError (Option ℕ))
    : Type 0 where
  pub prices : (left : ℕ) → r.1 ≡ ok (some left) → All IsPrice (get_prices r.0.world pair)
  pub fewer : (left : ℕ) → r.1 ≡ ok (some left) → length (get_prices r.0.world pair) < n

ends : (n : ℕ) (pair : Bytes) (m : Matching) → Shrinks n pair (m, ok none)
ends n pair m = record { prices = λ left e. ground arith; fewer = λ left e. ground arith }

fails : (n : ℕ) (pair : Bytes) (m : Matching) (x : ActuatorError) → Shrinks n pair (m, err x)
fails n pair m x = record { prices = λ left e. ground arith; fewer = λ left e. ground arith }

dropped :
    (pair : Bytes) (best : ℤ × ℤ) (rest : List (ℤ × ℤ)) (w : World)
    → get_prices w pair ≡ best ∷ rest
    → All IsPrice (best ∷ rest)
    → get_prices (remove_price pair best (put_order_ids pair best [] w)) pair ≡ drop_price rest best
unfolding drop_price
dropped pair best rest w e hs =
    let w' = put_order_ids pair best [] w in
    let prices : get_prices w' pair ≡ best ∷ rest =
      get_prices-put_order_ids pair pair best [] w ∙ e in
    get_prices-remove_price pair pair best w' (rw prices hs)
    ∙ rw (bytes_eq_refl pair, prices, cmp_self best) refl

close_level-Shrinks :
    (pair : Bytes) (best : ℤ × ℤ) (rest : List (ℤ × ℤ)) (m : Matching) (ids : List Bytes) (left : ℕ)
    (stop : Bool)
    → get_prices m.world pair ≡ best ∷ rest
    → All IsPrice (best ∷ rest)
    → Shrinks (suc (length rest)) pair (close_level pair best m (ids, left, stop))
unfolding close_level
close_level-Shrinks pair best rest m [] left true e hs = ends _ pair _
close_level-Shrinks pair best rest m [] left false e hs =
    let d = dropped pair best rest m.world e hs in
    record {
      prices = λ l run. rw d (All-drop_price rest best hs.1);
      fewer = λ l run. rw d (omega (arith, length-drop_price_le rest best));
    }
close_level-Shrinks pair best rest m (x ∷ ids) left stop e hs = ends _ pair _

attempted :
    (pair : Bytes) (best : ℤ × ℤ) (rest : List (ℤ × ℤ)) (m : Matching)
    (r : Result ActuatorError (List Bytes × ℕ × Bool))
    → get_prices m.world pair ≡ best ∷ rest
    → All IsPrice (best ∷ rest)
    → Shrinks (suc (length rest)) pair (attempt m r (close_level pair best m))
attempted pair best rest m (ok (ids, left, stop)) e hs =
    close_level-Shrinks pair best rest m ids left stop e hs
attempted pair best rest m (err x) e hs = fails _ pair m x

match_round-Shrinks :
    (pair : Bytes) (sell buy : ℤ) (budget : ℕ) (m : Matching) (prices : List (ℤ × ℤ))
    → get_prices m.world pair ≡ prices
    → All IsPrice prices
    → Shrinks (length prices) pair (match_round pair sell buy budget m)
unfolding match_round best_price
match_round-Shrinks pair sell buy budget m [] e hs = elim (Bool-cases (is_done m)) [
  | inl done ↦ rw (done, match_round) (ends _ pair m)
  | inr more ↦ rw (more, match_round, e) (ends _ pair m)
]
match_round-Shrinks pair sell buy budget m (best ∷ rest) e hs = elim (Bool-cases (is_done m)) [
  | inl done ↦ rw (done, match_round) (ends _ pair m)
  | inr more ↦ elim (Bool-cases (price_match sell buy best.0 best.1)) [
    | inl crossing ↦
        let (m₁, level) = match_level budget (get_order_ids m.world pair best) m in
        rw (more, match_round, e, crossing)
          (attempted pair best rest m₁ level
            (get_prices-lists m₁.world m.world pair
                (match_level-Keeps budget (get_order_ids m.world pair best) m).same
              ∙ e)
            hs)
    | inr apart ↦ rw (more, match_round, e, apart) (ends _ pair m)
  ]
]

module _ (pair : Bytes) (sell buy : ℤ) where
  abbrev go_on :
      ℕ → Matching × Result ActuatorError (Option ℕ) → Matching × Result ActuatorError (Unit {0})
  go_on rounds r = elim r.1 [
    | err e ↦ (r.0, err e)
    | ok none ↦ (r.0, ok tt)
    | ok (some left) ↦ match_rounds rounds pair sell buy left r.0
  ]

  match_rounds-suc :
      (rounds budget : ℕ) (m : Matching)
      → match_rounds (suc rounds) pair sell buy budget m
        ≡ go_on rounds (match_round pair sell buy budget m)
  unfolding match_rounds
  match_rounds-suc rounds budget m = refl

  same_end :
      (a b : ℕ) (r : Matching × Result ActuatorError (Option ℕ))
      → ((left : ℕ)
          → r.1 ≡ ok (some left)
          → match_rounds a pair sell buy left r.0 ≡ match_rounds b pair sell buy left r.0)
      → go_on a r ≡ go_on b r
  same_end a b (m', err x) h = refl
  same_end a b (m', ok none) h = refl
  same_end a b (m', ok (some left)) h = h left refl

  -- Two numbers of rounds above the number of prices give the same.
  pub match_rounds_enough :
      (a b budget : ℕ) (m : Matching)
      → All IsPrice (get_prices m.world pair)
      → length (get_prices m.world pair) < a
      → length (get_prices m.world pair) < b
      → match_rounds a pair sell buy budget m ≡ match_rounds b pair sell buy budget m
  match_rounds_enough zero b budget m hs lt lt' = ground arith
  match_rounds_enough (suc a) zero budget m hs lt lt' = ground arith
  match_rounds_enough (suc a) (suc b) budget m hs lt lt' =
      let r = match_round pair sell buy budget m in
      let shrinks = match_round-Shrinks pair sell buy budget m (get_prices m.world pair) refl hs in
      match_rounds-suc a budget m
      ∙ same_end a b r (λ left run.
        let fewer = shrinks.fewer left run in
        match_rounds_enough a b left r.0 (shrinks.prices left run) (omega arith) (omega arith))
      ∙ sym (match_rounds-suc b budget m)

-- The number of rounds that `match_order` allows is never what ends its loop: any number above that of
-- the prices listed for the makers' pair, when they are in range, gives the same.
pub match_order_enough :
    (rounds : ℕ) (m : Matching)
    → All IsPrice (get_prices m.world (pair_key m.taker.buy_token_id m.taker.sell_token_id))
    → length (get_prices m.world (pair_key m.taker.buy_token_id m.taker.sell_token_id)) < rounds
    → match_rounds rounds
        (pair_key m.taker.buy_token_id m.taker.sell_token_id)
        m.taker.sell_token_quantity
        m.taker.buy_token_quantity
        max_match_num
        m
      ≡ match_order m
unfolding match_order
match_order_enough rounds m hs lt =
    match_rounds_enough (pair_key m.taker.buy_token_id m.taker.sell_token_id)
      m.taker.sell_token_quantity m.taker.buy_token_quantity rounds
      (suc (length (get_prices m.world (pair_key m.taker.buy_token_id m.taker.sell_token_id))))
      max_match_num m hs lt (omega arith)
