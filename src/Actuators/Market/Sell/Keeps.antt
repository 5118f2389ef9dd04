-- ===== src/Actuators/Market/Sell/Keeps.antt =====
-- What the matching of crates/actuators/src/market/sell.rs leaves alone: the orders of one price are
-- settled without a change to the lists of prices.
use tron_rs.Prelude.{
  ◌==◌, Bool-cases, length, Bytes, ℤ, pos, eqb_ℤ, Result, ok, err, ℕ, zero, suc, ◌≡◌, refl, ◌∙◌,
  inl, inr, Bool, true, false, Option, List, [], ◌∷◌,
}
use tron_rs.Actuators.Outcomes.{OnOk, OnOk-bind}
use tron_rs.State.World.{World, MarketOrder, put_account}
use tron_rs.Actuators.{
  ActuatorError, invalid_address, maker_account_missing, state, parse_address, need_account,
  attempt,
}
use tron_rs.Actuators
use tron_rs.Actuators.Dex.{credit_token}
use tron_rs.Actuators.Market.{inactive}
use tron_rs.Actuators.Market.Price.{Fill, return_taker, return_maker, trade, fill}
use tron_rs.Actuators.Market.Book.{put_order, stored, put_account_orders, remove_account_order}
use tron_rs.Actuators.Market.Sell.Match.{
  Matching, credit_maker, settle_fill, match_single, store_maker, match_head, is_done, match_level,
  find_maker,
}

-- The lists of prices, by pair.
abbrev pub lists : World → Bytes → Option Bytes
lists w = w.market.pair_prices

pub record Keeps {A : Type 0} (kept : Bytes → Option Bytes) (r : Matching × Result ActuatorError A)
    : Type 0 where
  pub same : lists r.0.world ≡ kept

-- What follows may fail, and keeps the lists when it does not.
attempt-Keeps :
    {A B : Type 0} {kept : Bytes → Option Bytes} (m : Matching) (r : Result ActuatorError A)
    (next : A → Matching × Result ActuatorError B)
    → lists m.world ≡ kept
    → ((a : A) → Keeps kept (next a))
    → Keeps kept (attempt m r next)
attempt-Keeps m (ok a) next e h = h a
attempt-Keeps m (err x) next e h = record { same = e }

-- A step that makes a world with the same lists.
world-Keeps :
    {B : Type 0} {kept : Bytes → Option Bytes} (m : Matching) (r : Result ActuatorError World)
    (next : World → Matching × Result ActuatorError B)
    → lists m.world ≡ kept
    → OnOk (λ w. lists w ≡ kept) r
    → ((w : World) → lists (next w).0.world ≡ lists w)
    → Keeps kept (attempt m r next)
world-Keeps m (ok w) next e k h = record { same = h w ∙ k }
world-Keeps m (err x) next e k h = record { same = e }

credit_maker_keeps :
    (maker : MarketOrder) (token : Bytes) (amount : ℤ) (w : World)
    → OnOk (λ w'. lists w' ≡ lists w) (credit_maker maker token amount w)
unfolding credit_maker put_account
credit_maker_keeps maker token amount w =
    OnOk-bind _ (parse_address maker.owner_address invalid_address) _ λ owner.
      OnOk-bind _ (need_account w owner (Actuators.execute maker_account_missing)) _
        λ account. OnOk-bind _ (credit_token account token amount) _ λ credited. refl

put_order_keeps :
    (order : MarketOrder) (w : World) → OnOk (λ w'. lists w' ≡ lists w) (put_order order w)
unfolding put_order
put_order_keeps order w = elim (Bool-cases (length order.order_id == 32)) [
  | inl e ↦ rw e refl
  | inr e ↦ rw e tt
]

settle_fill-Keeps :
    (m : Matching) (maker : MarketOrder) (f : Fill) → Keeps (lists m.world) (settle_fill m maker f)
unfolding settle_fill
settle_fill-Keeps m maker return_taker =
    attempt-Keeps m
      (credit_token m.account m.taker.sell_token_id m.taker.sell_token_quantity_remain) _ refl
      λ account. record { same = refl }
settle_fill-Keeps m maker return_maker =
    let token = maker.sell_token_id in
    let amount = maker.sell_token_quantity_remain in
    world-Keeps m (credit_maker maker token amount m.world) _ refl
      (credit_maker_keeps maker token amount m.world) λ w. refl
settle_fill-Keeps m maker (trade amounts) =
    let token = maker.buy_token_id in
    let amount = amounts.maker_buy_receive in
    attempt-Keeps m (credit_token m.account m.taker.buy_token_id amounts.taker_buy_receive) _ refl
      λ account.
        world-Keeps m (credit_maker maker token amount m.world) _ refl
          (credit_maker_keeps maker token amount m.world) λ w. refl

match_single-Keeps :
    (m : Matching) (maker : MarketOrder) → Keeps (lists m.world) (match_single m maker)
unfolding match_single
match_single-Keeps m maker =
    attempt-Keeps m
      (fill m.taker.sell_token_quantity_remain maker.sell_token_quantity maker.buy_token_quantity
        maker.sell_token_quantity_remain)
      _ refl (settle_fill-Keeps m maker)

store_maker-Keeps :
    (m : Matching) (id : Bytes) (rest : List Bytes) (maker : MarketOrder)
    → Keeps (lists m.world) (store_maker m id rest maker)
unfolding store_maker remove_account_order put_account_orders
store_maker-Keeps m id rest maker =
    let done = record maker { state = inactive } in
    elim (Bool-cases (eqb_ℤ maker.sell_token_quantity_remain (pos 0))) [
      | inl e ↦
          rw e
            (world-Keeps m (put_order done m.world) _ refl (put_order_keeps done m.world) λ w. refl)
      | inr e ↦
          rw e (
            world-Keeps m (put_order maker m.world) _ refl (put_order_keeps maker m.world)
              λ w. refl)
    ]

match_head-Keeps :
    (m : Matching) (id : Bytes) (rest : List Bytes) → Keeps (lists m.world) (match_head m id rest)
unfolding match_head
match_head-Keeps m id rest = attempt-Keeps m (find_maker m.world id) _ refl λ maker.
    let (m₁, single) = match_single m maker in
    let kept₁ = (match_single-Keeps m maker).same in
    attempt-Keeps m₁ single _ kept₁ λ settled.
      let (m₂, stored) = store_maker m₁ id rest settled.0 in
      let kept = (store_maker-Keeps m₁ id rest settled.0).same ∙ kept₁ in
      attempt-Keeps m₂ stored _ kept λ ids. record { same = kept }

pub match_level-Keeps :
    (budget : ℕ) (ids : List Bytes) (m : Matching)
    → Keeps (lists m.world) (match_level budget ids m)
unfolding match_level
match_level-Keeps budget [] m = record { same = refl }
match_level-Keeps zero (id ∷ rest) m = elim (Bool-cases (is_done m)) [
  | inl e ↦ rw e (record { same = refl })
  | inr e ↦
      let (m', head) = match_head m id rest in
      let kept = (match_head-Keeps m id rest).same in
      rw e (attempt-Keeps m' head _ kept λ left. record { same = kept })
]
match_level-Keeps (suc budget) (id ∷ rest) m = elim (Bool-cases (is_done m)) [
  | inl e ↦ rw (e, match_level) (record { same = refl })
  | inr e ↦
      let (m', head) = match_head m id rest in
      let kept = (match_head-Keeps m id rest).same in
      rw (e, match_level)
        (attempt-Keeps m' head _ kept λ (ids, stop).
          elim stop
            as (λ b. Keeps {A = List Bytes × ℕ × Bool} (lists m.world) (elim b [
              | true ↦ (m', ok (ids, budget, true))
              | false ↦ match_level budget ids m'
            ])) [
              | true ↦ record { same = kept }
              | false ↦ record { same = (match_level-Keeps budget ids m').same ∙ kept }
            ])
]
