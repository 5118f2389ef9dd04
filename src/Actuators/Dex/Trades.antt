-- ===== src/Actuators/Dex/Trades.antt =====
-- The withdrawals and swaps of crates/actuators/src/exchange.rs move tokens between an account and a
-- pool.
use tron_rs.Prelude.{
  if◌then◌else◌, Bytes, bytes_eq, ℤ, ◌+ℤ◌, ◌-ℤ◌, IsI64, add_i64-in, sub_i64-in, ok, ◌≡◌, arith,
}
use tron_rs.Prelude.Endian.{bytes_eq_iff, bytes_eq_refl}
use tron_rs.State.World.{Account, Exchange}
use tron_rs.Actuators.Dex.{token_balance, Floats, debit_token, credit_token, pool_transaction}
use tron_rs.Actuators.Dex.Tokens.{
  debit_token-ok, bind_cases, credit_token-ok, OnlyTokens, OnlyTokens-trans, debit_token-OnlyTokens,
  credit_token-OnlyTokens,
}
use tron_rs.Actuators.Dex.Withdraw.{withdrawn, pay_out}
use tron_rs.Actuators.Dex.Swap.{trade, swapped}
use tron_rs.Actuators.Dex.Conserve.{
  IsPool, pool_balance, Conserved, other_token, conserved_if, two_steps, Sets, back_in, back_out,
  other-apart, Sets,
}

pool_balance-withdrawn :
    (ex : Exchange) (token_id : Bytes) (quant another : ℤ)
    → IsPool ex token_id
    → IsI64 (pool_balance ex token_id -ℤ quant)
    → IsI64 (pool_balance ex (other_token ex token_id) -ℤ another)
    → (j : Bytes)
    → pool_balance (withdrawn ex token_id quant another) j ≡ (
        if bytes_eq (other_token ex token_id) j
        then pool_balance ex (other_token ex token_id) -ℤ another
        else if bytes_eq token_id j
        then pool_balance ex token_id -ℤ quant
        else pool_balance ex j)
unfolding withdrawn
pool_balance-withdrawn ex token_id quant another p room room' j = ground (
  arith,
  p.apart,
  p.member,
  room,
  room',
  bytes_eq_iff token_id ex.first_token_id,
  bytes_eq_iff ex.first_token_id token_id,
  bytes_eq_iff ex.first_token_id j,
  bytes_eq_iff token_id j,
  bytes_eq_iff ex.second_token_id j,
  bytes_eq_iff token_id ex.second_token_id,
  bytes_eq_refl token_id,
  bytes_eq_refl ex.first_token_id,
  bytes_eq_refl ex.second_token_id,
  sub_i64-in ex.first_token_balance quant,
  sub_i64-in ex.first_token_balance another,
  sub_i64-in ex.second_token_balance quant,
  sub_i64-in ex.second_token_balance another,
)

pub pay_out-Sets :
    (ex : Exchange) (account paid : Account) (token_id : Bytes) (quant another : ℤ)
    → IsPool ex token_id
    → pay_out account token_id quant (other_token ex token_id, another) ≡ ok paid
    → Sets
        (token_balance account)
        (token_balance paid)
        token_id
        (other_token ex token_id)
        (token_balance account token_id +ℤ quant)
        (token_balance account (other_token ex token_id) +ℤ another)
unfolding pay_out
pay_out-Sets ex account paid token_id quant another p h =
    let o = other_token ex token_id in
    let (first, e, last) = bind_cases (credit_token account token_id quant) _ paid h in
    two_steps (token_balance account) (token_balance first) (token_balance paid) token_id o _
      (λ b. b +ℤ another) (other-apart ex token_id p)
      (credit_token-ok account first token_id quant e) (credit_token-ok first paid o another last)

pub pay_out-OnlyTokens :
    (ex : Exchange) (account paid : Account) (token_id : Bytes) (quant another : ℤ)
    → pay_out account token_id quant (other_token ex token_id, another) ≡ ok paid
    → OnlyTokens account paid
unfolding pay_out
pay_out-OnlyTokens ex account paid token_id quant another h =
    let (first, e, last) = bind_cases (credit_token account token_id quant) _ paid h in
    OnlyTokens-trans account first paid (credit_token-OnlyTokens account first token_id quant e)
      (credit_token-OnlyTokens first paid (other_token ex token_id) another last)

-- What a withdrawal credits to the account is what it takes from the pool, for every token.
pub pay_out-conserves :
    (ex : Exchange) (account paid : Account) (token_id : Bytes) (quant another : ℤ)
    → IsPool ex token_id
    → pay_out account token_id quant (other_token ex token_id, another) ≡ ok paid
    → IsI64 (pool_balance ex token_id -ℤ quant)
    → IsI64 (pool_balance ex (other_token ex token_id) -ℤ another)
    → Conserved account ex paid (withdrawn ex token_id quant another)
pay_out-conserves ex account paid token_id quant another p h room room' j =
    conserved_if (token_balance account) (token_balance paid) (pool_balance ex)
      (pool_balance (withdrawn ex token_id quant another)) token_id (other_token ex token_id) j _ _
      _ _ (pay_out-Sets ex account paid token_id quant another p h j)
      (pool_balance-withdrawn ex token_id quant another p room room' j) (back_out _ _ another)
      (back_out _ _ quant)

-- What the swap buys.
abbrev pub bought : Floats → Exchange → Bytes → ℤ → ℤ
bought floats ex token_id quant = (pool_transaction floats ex token_id quant).0

pool_balance-swapped :
    (floats : Floats) (ex : Exchange) (token_id : Bytes) (quant : ℤ)
    → IsPool ex token_id
    → IsI64 (pool_balance ex token_id +ℤ quant)
    → IsI64 (pool_balance ex (other_token ex token_id) -ℤ bought floats ex token_id quant)
    → (j : Bytes)
    → pool_balance (swapped floats ex token_id quant) j ≡ (
        if bytes_eq (other_token ex token_id) j
        then pool_balance ex (other_token ex token_id) -ℤ bought floats ex token_id quant
        else if bytes_eq token_id j
        then pool_balance ex token_id +ℤ quant
        else pool_balance ex j)
unfolding swapped pool_transaction
pool_balance-swapped floats ex token_id quant p room room' j = ground (
  arith,
  p.apart,
  p.member,
  room,
  room',
  bytes_eq_iff token_id ex.first_token_id,
  bytes_eq_iff ex.first_token_id token_id,
  bytes_eq_iff ex.first_token_id j,
  bytes_eq_iff token_id j,
  bytes_eq_iff ex.second_token_id j,
  bytes_eq_iff token_id ex.second_token_id,
  bytes_eq_refl token_id,
  bytes_eq_refl ex.first_token_id,
  bytes_eq_refl ex.second_token_id,
  add_i64-in ex.first_token_balance quant,
  add_i64-in ex.second_token_balance quant,
  sub_i64-in ex.first_token_balance
      (floats.bancor_exchange ex.second_token_balance ex.first_token_balance quant),
  sub_i64-in ex.second_token_balance
      (floats.bancor_exchange ex.first_token_balance ex.second_token_balance quant),
)

pub trade-Sets :
    (floats : Floats) (ex : Exchange) (account paid : Account) (token_id : Bytes) (quant : ℤ)
    → IsPool ex token_id
    → trade floats ex account token_id quant ≡ ok paid
    → Sets
        (token_balance account)
        (token_balance paid)
        token_id
        (other_token ex token_id)
        (token_balance account token_id -ℤ quant)
        (token_balance account (other_token ex token_id) +ℤ bought floats ex token_id quant)
unfolding trade
trade-Sets floats ex account paid token_id quant p h =
    let o = other_token ex token_id in
    let buy = bought floats ex token_id quant in
    let (first, e, last) = bind_cases (debit_token account token_id quant) _ paid h in
    two_steps (token_balance account) (token_balance first) (token_balance paid) token_id o _
      (λ b. b +ℤ buy) (other-apart ex token_id p) (debit_token-ok account first token_id quant e)
      (credit_token-ok first paid o buy last)

pub trade-OnlyTokens :
    (floats : Floats) (ex : Exchange) (account paid : Account) (token_id : Bytes) (quant : ℤ)
    → trade floats ex account token_id quant ≡ ok paid
    → OnlyTokens account paid
unfolding trade
trade-OnlyTokens floats ex account paid token_id quant h =
    let (first, e, last) = bind_cases (debit_token account token_id quant) _ paid h in
    OnlyTokens-trans account first paid (debit_token-OnlyTokens account first token_id quant e) (
      credit_token-OnlyTokens first paid (other_token ex token_id) (bought floats ex token_id quant)
        last)

-- What a swap takes from the account goes into the pool, and what it buys comes out of the pool.
pub trade-conserves :
    (floats : Floats) (ex : Exchange) (account paid : Account) (token_id : Bytes) (quant : ℤ)
    → IsPool ex token_id
    → trade floats ex account token_id quant ≡ ok paid
    → IsI64 (pool_balance ex token_id +ℤ quant)
    → IsI64 (pool_balance ex (other_token ex token_id) -ℤ bought floats ex token_id quant)
    → Conserved account ex paid (swapped floats ex token_id quant)
trade-conserves floats ex account paid token_id quant p h room room' j =
    conserved_if (token_balance account) (token_balance paid) (pool_balance ex)
      (pool_balance (swapped floats ex token_id quant)) token_id (other_token ex token_id) j _ _ _ _
      (trade-Sets floats ex account paid token_id quant p h j)
      (pool_balance-swapped floats ex token_id quant p room room' j) (back_out _ _ _)
      (back_in _ _ quant)
