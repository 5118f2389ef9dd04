-- ===== src/Actuators/Market/Price/Fair.antt =====
-- What a fill of crates/actuators/src/market/sell.rs gives to the two sides.
use native.Mathlib.Nat.{div-mul-le_self, lt-mul-div-succ, div-le_of_le-mul}
use tron_rs.Prelude.{
  ℤ, pos, pos_part, ◌+ℤ◌, ◌≤ℤ◌, eqb_ℤ, int_laws, wrap_i64-in, sub_i64, sub_i64-in, mul_pos,
  quot_pos, ok, ℕ, suc, ◌-◌, ◌*◌, ◌/◌, ◌^◌, ◌≤◌, ◌<◌, ◌≡◌, refl, sym, ap, ◌∙◌, ◌⊎◌, inl, inr, false,
  arith,
}
use tron_rs.Actuators.Market.Price.{Amounts, multiply_and_divide, trade, fill_for, fill}

pub quot_within :
    (a b c : ℕ)
    → 0 < c
    → a * b / c < 2 ^ 63
    → multiply_and_divide (pos a) (pos b) (pos c) ≡ ok (pos (a * b / c))
unfolding multiply_and_divide
quot_within a b c h lt =
    let apart : eqb_ℤ (pos c) (pos 0) ≡ false = ground arith in
    rw (apart, mul_pos, quot_pos, wrap_i64-in (pos (a * b / c)) (omega arith, omega arith)) refl

-- What the taker gives and has left is what it had, in the same way for the maker, nothing is
-- negative, and each side gets its price up to less than one unit of the token it receives.
pub record IsFair (taker_sell maker_sell maker_buy maker_rest : ℕ) (a : Amounts) : Type 0 where
  pub taker_kept : a.maker_buy_receive +ℤ a.taker_remain ≡ pos taker_sell
  pub maker_kept : a.taker_buy_receive +ℤ a.maker_remain ≡ pos maker_rest
  pub receives : (pos 0 ≤ℤ a.taker_buy_receive) × (pos 0 ≤ℤ a.maker_buy_receive)
  pub remains : (pos 0 ≤ℤ a.taker_remain) × (pos 0 ≤ℤ a.maker_remain)
  pub one_done : (a.taker_remain ≡ pos 0) ⊎ (a.maker_remain ≡ pos 0)
  pub taker_price :
      pos_part a.maker_buy_receive * maker_sell < suc (pos_part a.taker_buy_receive) * maker_buy
  pub maker_price :
      pos_part a.taker_buy_receive * maker_buy < suc (pos_part a.maker_buy_receive) * maker_sell

pub sub_within : (a b : ℕ) → b ≤ a → a < 2 ^ 63 → sub_i64 (pos a) (pos b) ≡ pos (a - b)
sub_within a b h lt = sub_i64-in (pos a) (pos b) (omega int_laws) ∙ (omega int_laws)

back : (x n : ℕ) → x ≤ n → pos x +ℤ pos (n - x) ≡ pos n
back x n h = omega int_laws

-- The maker sells the whole rest `n`, of which the taker could buy `t * ms / mb`.
floor_le : (n mb ms t : ℕ) → 0 < ms → n ≤ t * ms / mb → n * mb / ms ≤ t
floor_le n mb ms t h le =
    div-le_of_le-mul ms {m = n * mb} {n = t} (grind (arith, div-mul-le_self (t * ms) mb))

floor_lt : (a b c : ℕ) → 0 < c → a * b < suc (a * b / c) * c
floor_lt a b c h = omega (arith, lt-mul-div-succ (a * b) h)

fill_divided :
    (t ms mb n q : ℤ) → multiply_and_divide t ms mb ≡ ok q → fill t ms mb n ≡ fill_for q t ms mb n
unfolding fill
fill_divided t ms mb n q e = rw e refl

-- A trade is for the whole rest of the maker's order, or for what the taker can buy.
trade_cases :
    (x t ms mb n y : ℕ) (a : Amounts)
    → multiply_and_divide (pos n) (pos mb) (pos ms) ≡ ok (pos y)
    → fill_for (pos x) (pos t) (pos ms) (pos mb) (pos n) ≡ ok (trade a)
    → ((n ≤ x)
        × (record {
          taker_buy_receive = pos n;
          maker_buy_receive = pos y;
          taker_remain = sub_i64 (pos t) (pos y);
          maker_remain = pos 0;
        }
            ≡ a))
      ⊎ ((x < n)
          × (record {
            taker_buy_receive = pos x;
            maker_buy_receive = pos t;
            taker_remain = pos 0;
            maker_remain = sub_i64 (pos n) (pos x);
          }
              ≡ a))
unfolding fill_for
trade_cases x t ms mb n y a q run = ground arith

module _ (t ms mb n : ℕ) (ms_pos : 0 < ms) (mb_pos : 0 < mb) (t_lt : t < 2 ^ 63)
    (n_lt : n < 2 ^ 63) where
  trade-IsFair :
      (x y : ℕ) (a : Amounts)
      → x ≤ n
      → y ≤ t
      → (y ≡ t) ⊎ (x ≡ n)
      → y * ms < suc x * mb
      → x * mb < suc y * ms
      → a.taker_buy_receive ≡ pos x
      → a.maker_buy_receive ≡ pos y
      → a.taker_remain ≡ pos (t - y)
      → a.maker_remain ≡ pos (n - x)
      → IsFair t ms mb n a
  trade-IsFair x y a xn yt one tp mp e₁ e₂ e₃ e₄ = record {
    taker_kept = rw (e₂, e₃) (back y t yt);
    maker_kept = rw (e₁, e₄) (back x n xn);
    receives = (rw e₁ (omega arith), rw e₂ (omega arith));
    remains = (rw e₃ (omega arith), rw e₄ (omega arith));
    one_done = elim one [ inl e ↦ inl (rw e₃ (ground arith)) | inr e ↦ inr (rw e₄ (ground arith)) ];
    taker_price = rw (e₁, e₂) tp;
    maker_price = rw (e₁, e₂) mp;
  }

  could_buy_all :
      (a : Amounts)
      → n ≤ t * ms / mb
      → a.taker_buy_receive ≡ pos n
      → a.maker_buy_receive ≡ pos (n * mb / ms)
      → a.taker_remain ≡ sub_i64 (pos t) (pos (n * mb / ms))
      → a.maker_remain ≡ pos 0
      → IsFair t ms mb n a
  could_buy_all a le e₁ e₂ e₃ e₄ =
      let y = n * mb / ms in
      let yt = floor_le n mb ms t ms_pos le in
      trade-IsFair n y a (omega arith) yt (inr refl) (omega (arith, div-mul-le_self (n * mb) ms))
        (floor_lt n mb ms ms_pos) e₁ e₂ (e₃ ∙ sub_within t y yt t_lt) (e₄ ∙ ground arith)

  buys_part :
      (a : Amounts)
      → t * ms / mb < n
      → a.taker_buy_receive ≡ pos (t * ms / mb)
      → a.maker_buy_receive ≡ pos t
      → a.taker_remain ≡ pos 0
      → a.maker_remain ≡ sub_i64 (pos n) (pos (t * ms / mb))
      → IsFair t ms mb n a
  buys_part a lt e₁ e₂ e₃ e₄ =
      let x = t * ms / mb in
      trade-IsFair x t a (omega arith) (omega arith) (inl refl) (floor_lt t ms mb mb_pos)
        (omega (arith, div-mul-le_self (t * ms) mb)) e₁ e₂ (e₃ ∙ ground arith)
        (e₄ ∙ sub_within n x (omega arith) n_lt)

-- A trade between a taker with `t` left and a maker with `n` left of an order that sells `ms` for
-- `mb` conserves what the two had, leaves one of them with nothing, and gives each its price up to
-- one unit, when the amounts and the two quotients fit an i64.
pub fill-IsFair :
    (t ms mb n : ℕ) (a : Amounts)
    → 0 < ms
    → 0 < mb
    → t < 2 ^ 63
    → n < 2 ^ 63
    → t * ms / mb < 2 ^ 63
    → n * mb / ms < 2 ^ 63
    → fill (pos t) (pos ms) (pos mb) (pos n) ≡ ok (trade a)
    → IsFair t ms mb n a
fill-IsFair t ms mb n a ms_pos mb_pos t_lt n_lt q_lt r_lt run =
    let x = t * ms / mb in
    let y = n * mb / ms in
    let divided =
      fill_divided (pos t) (pos ms) (pos mb) (pos n) (pos x) (quot_within t ms mb mb_pos q_lt) in
    elim (trade_cases x t ms mb n y a (quot_within n mb ms ms_pos r_lt) (sym divided ∙ run)) [
      | inl (le, e) ↦
          could_buy_all t ms mb n ms_pos mb_pos t_lt n_lt a le
            (ap (λ b. b.taker_buy_receive) (sym e)) (ap (λ b. b.maker_buy_receive) (sym e))
            (ap (λ b. b.taker_remain) (sym e)) (ap (λ b. b.maker_remain) (sym e))
      | inr (lt, e) ↦
          buys_part t ms mb n ms_pos mb_pos t_lt n_lt a lt (ap (λ b. b.taker_buy_receive) (sym e))
            (ap (λ b. b.maker_buy_receive) (sym e)) (ap (λ b. b.taker_remain) (sym e))
            (ap (λ b. b.maker_remain) (sym e))
    ]
