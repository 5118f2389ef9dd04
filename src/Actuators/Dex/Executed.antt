-- ===== src/Actuators/Dex/Executed.antt =====
-- The executions of crates/actuators/src/exchange.rs conserve every token.
use tron_rs.Prelude.{
  Bool-cases, Bytes, bytes_eq, ℤ, pos, ◌+ℤ◌, ◌-ℤ◌, IsI64, ok, Result-cases, ◌≡◌, refl, inl, inr,
}
use tron_rs.State.World.{World, Account, Exchange, put_account}
use tron_rs.Actuators.{
  invalid_address, owner_account_missing, exchange_missing, execute, parse_address, try,
}
use tron_rs.Actuators
use tron_rs.Actuators.Dex.{Floats, token_balance, put_exchange, paired}
use tron_rs.Actuators.Dex.Inject.{injected, ExchangeInjectContract, pay_in}
use tron_rs.Actuators.Dex.Inject
use tron_rs.Actuators.Dex.Withdraw.{withdrawn, ExchangeWithdrawContract, pay_out}
use tron_rs.Actuators.Dex.Withdraw
use tron_rs.Actuators.Dex.Swap.{trade, ExchangeTransactionContract, swapped}
use tron_rs.Actuators.Dex.Swap
use tron_rs.Actuators.Dex.Conserve.{
  IsPool, pool_balance, other_token, pay_in-Sets, pay_in-OnlyTokens, pay_in-conserves,
}
use tron_rs.Actuators.Dex.Trades.{
  pay_out-Sets, pay_out-OnlyTokens, pay_out-conserves, bought, trade-Sets, trade-OnlyTokens,
  trade-conserves,
}
use tron_rs.Actuators.Dex.Settled.{
  OnlyBalances, moved, not_ok, IsLoaded, Moved, loaded_pool, loaded_owner,
}

injected-OnlyBalances :
    (ex : Exchange) (token_id : Bytes) (quant another : ℤ)
    → OnlyBalances ex (injected ex token_id quant another)
unfolding injected
injected-OnlyBalances ex token_id quant another =
    elim (Bool-cases (bytes_eq token_id ex.first_token_id)) [
      | inl e ↦ rw (e, injected) refl
      | inr e ↦ rw (e, injected) refl
    ]

-- What an injection comes to, once its owner's address is parsed.
injecting :
    (w : World) (c : Inject.ExchangeInjectContract) (another : ℤ) (account : Account)
    (ex : Exchange)
    → parse_address c.owner_address invalid_address ≡ ok c.owner_address
    → IsLoaded w c.owner_address c.exchange_id account ex
    → paired ex c.token_id c.quant ≡ ok (other_token ex c.token_id, another)
    → Inject.execute w c
      ≡ try w (pay_in account c.token_id c.quant (other_token ex c.token_id, another)) λ paid. (
        put_exchange (injected ex c.token_id c.quant another) (put_account c.owner_address paid w),
        ok (pos 0),
      )
unfolding Inject.execute
injecting w c another account ex parsed loaded pair = rw (
  parsed,
  loaded_pool w c.exchange_id (Actuators.execute exchange_missing) ex loaded.has_pool,
  pair,
  loaded_owner w c.owner_address (Actuators.execute owner_account_missing) account loaded.has_owner,
)

-- For an owner whose address parses, an owner and a pool that are stored, a pool of two different tokens, one of which is the token
-- of the contract, and balances of the pool that stay in range
-- with the paired amount, where this is computed: an injection that succeeds takes
-- the contract's amount of the token and the paired amount of the other token from the owner, and
-- leaves the sum of the owner's and the pool's balance of every token as it was. Nothing else changes:
-- no other field of the owner's account or of the pool, no other account or pool, and no other part of
-- the state.
pub inject-moves :
    (w : World) (c : Inject.ExchangeInjectContract) (fee another : ℤ) (account : Account)
    (ex : Exchange)
    → parse_address c.owner_address invalid_address ≡ ok c.owner_address
    → IsLoaded w c.owner_address c.exchange_id account ex
    → IsPool ex c.token_id
    → paired ex c.token_id c.quant ≡ ok (other_token ex c.token_id, another)
    → IsI64 (pool_balance ex c.token_id +ℤ c.quant)
    → IsI64 (pool_balance ex (other_token ex c.token_id) +ℤ another)
    → (Inject.execute w c).1 ≡ ok fee
    → Moved w c.owner_address c.exchange_id account ex c.token_id
        (other_token ex c.token_id)
        (token_balance account c.token_id -ℤ c.quant)
        (token_balance account (other_token ex c.token_id) -ℤ another)
        (Inject.execute w c).0
inject-moves w c fee another account ex parsed loaded p pair room room' h =
    elim (Result-cases (pay_in account c.token_id c.quant (other_token ex c.token_id, another))) [
      | inl (e, bad) ↦
          absurd (not_ok (rw (injecting w c another account ex parsed loaded pair, bad) at h))
      | inr (paid, good) ↦
          rw (injecting w c another account ex parsed loaded pair, good)
            (moved w c.owner_address c.exchange_id account paid ex
              (injected ex c.token_id c.quant another) c.token_id (other_token ex c.token_id) _ _
              (pay_in-Sets ex account paid c.token_id c.quant another p good)
              (pay_in-conserves ex account paid c.token_id c.quant another p good room room')
              (pay_in-OnlyTokens ex account paid c.token_id c.quant another good)
              (injected-OnlyBalances ex c.token_id c.quant another) loaded.keyed)
    ]

withdrawn-OnlyBalances :
    (ex : Exchange) (token_id : Bytes) (quant another : ℤ)
    → OnlyBalances ex (withdrawn ex token_id quant another)
unfolding withdrawn
withdrawn-OnlyBalances ex token_id quant another =
    elim (Bool-cases (bytes_eq token_id ex.first_token_id)) [
      | inl e ↦ rw (e, withdrawn) refl
      | inr e ↦ rw (e, withdrawn) refl
    ]

-- What a withdrawal comes to, once its owner's address is parsed.
withdrawing :
    (w : World) (c : Withdraw.ExchangeWithdrawContract) (another : ℤ) (account : Account)
    (ex : Exchange)
    → parse_address c.owner_address invalid_address ≡ ok c.owner_address
    → IsLoaded w c.owner_address c.exchange_id account ex
    → paired ex c.token_id c.quant ≡ ok (other_token ex c.token_id, another)
    → Withdraw.execute w c
      ≡ try w (pay_out account c.token_id c.quant (other_token ex c.token_id, another)) λ paid. (
        put_exchange (withdrawn ex c.token_id c.quant another) (put_account c.owner_address paid w),
        ok (pos 0),
      )
unfolding Withdraw.execute
withdrawing w c another account ex parsed loaded pair = rw (
  parsed,
  loaded_pool w c.exchange_id (Actuators.execute exchange_missing) ex loaded.has_pool,
  pair,
  loaded_owner w c.owner_address (Actuators.execute owner_account_missing) account loaded.has_owner,
)

-- For an owner whose address parses, an owner and a pool that are stored, a pool of two different tokens, one of which is the token
-- of the contract, and balances of the pool that stay in range
-- with the paired amount, where this is computed: a withdrawal that succeeds gives
-- the owner the contract's amount of the token and the paired amount of the other token, and leaves
-- the sum of the owner's and the pool's balance of every token as it was. Nothing else changes: no
-- other field of the owner's account or of the pool, no other account or pool, and no other part of
-- the state.
pub withdraw-moves :
    (w : World) (c : Withdraw.ExchangeWithdrawContract) (fee another : ℤ) (account : Account)
    (ex : Exchange)
    → parse_address c.owner_address invalid_address ≡ ok c.owner_address
    → IsLoaded w c.owner_address c.exchange_id account ex
    → IsPool ex c.token_id
    → paired ex c.token_id c.quant ≡ ok (other_token ex c.token_id, another)
    → IsI64 (pool_balance ex c.token_id -ℤ c.quant)
    → IsI64 (pool_balance ex (other_token ex c.token_id) -ℤ another)
    → (Withdraw.execute w c).1 ≡ ok fee
    → Moved w c.owner_address c.exchange_id account ex c.token_id
        (other_token ex c.token_id)
        (token_balance account c.token_id +ℤ c.quant)
        (token_balance account (other_token ex c.token_id) +ℤ another)
        (Withdraw.execute w c).0
withdraw-moves w c fee another account ex parsed loaded p pair room room' h =
    elim (Result-cases (pay_out account c.token_id c.quant (other_token ex c.token_id, another))) [
      | inl (e, bad) ↦
          absurd (not_ok (rw (withdrawing w c another account ex parsed loaded pair, bad) at h))
      | inr (paid, good) ↦
          rw (withdrawing w c another account ex parsed loaded pair, good)
            (moved w c.owner_address c.exchange_id account paid ex
              (withdrawn ex c.token_id c.quant another) c.token_id (other_token ex c.token_id) _ _
              (pay_out-Sets ex account paid c.token_id c.quant another p good)
              (pay_out-conserves ex account paid c.token_id c.quant another p good room room')
              (pay_out-OnlyTokens ex account paid c.token_id c.quant another good)
              (withdrawn-OnlyBalances ex c.token_id c.quant another) loaded.keyed)
    ]

swapped-OnlyBalances :
    (floats : Floats) (ex : Exchange) (token_id : Bytes) (quant : ℤ)
    → OnlyBalances ex (swapped floats ex token_id quant)
unfolding swapped
swapped-OnlyBalances floats ex token_id quant = refl

-- What a swap comes to, once its owner's address is parsed.
swapping :
    (floats : Floats) (w : World) (c : Swap.ExchangeTransactionContract) (account : Account)
    (ex : Exchange)
    → parse_address c.owner_address invalid_address ≡ ok c.owner_address
    → IsLoaded w c.owner_address c.exchange_id account ex
    → Swap.execute floats w c
      ≡ try w (trade floats ex account c.token_id c.quant) λ paid. (
        put_exchange (swapped floats ex c.token_id c.quant) (put_account c.owner_address paid w),
        ok (pos 0),
      )
unfolding Swap.execute
swapping floats w c account ex parsed loaded = rw (
  parsed,
  loaded_pool w c.exchange_id (Actuators.execute exchange_missing) ex loaded.has_pool,
  loaded_owner w c.owner_address (Actuators.execute owner_account_missing) account loaded.has_owner,
)

-- For an owner whose address parses, an owner and a pool that are stored, a pool of two different tokens, one of which is the token
-- of the contract, and balances of the pool that stay in range: a swap that succeeds
-- takes the contract's amount of the token from the owner, gives the owner what it buys of the other
-- token, and leaves the sum of the owner's and the pool's balance of every token as it was, whatever
-- the pricing formula comes to. Nothing else changes: no other field of the owner's account or of the
-- pool, no other account or pool, and no other part of the state.
pub swap-moves :
    (floats : Floats) (w : World) (c : Swap.ExchangeTransactionContract) (fee : ℤ)
    (account : Account) (ex : Exchange)
    → parse_address c.owner_address invalid_address ≡ ok c.owner_address
    → IsLoaded w c.owner_address c.exchange_id account ex
    → IsPool ex c.token_id
    → IsI64 (pool_balance ex c.token_id +ℤ c.quant)
    → IsI64 (pool_balance ex (other_token ex c.token_id) -ℤ bought floats ex c.token_id c.quant)
    → (Swap.execute floats w c).1 ≡ ok fee
    → Moved w c.owner_address c.exchange_id account ex c.token_id
        (other_token ex c.token_id)
        (token_balance account c.token_id -ℤ c.quant)
        (token_balance account (other_token ex c.token_id) +ℤ bought floats ex c.token_id c.quant)
        (Swap.execute floats w c).0
swap-moves floats w c fee account ex parsed loaded p room room' h =
    elim (Result-cases (trade floats ex account c.token_id c.quant)) [
      | inl (e, bad) ↦ absurd (not_ok (rw (swapping floats w c account ex parsed loaded, bad) at h))
      | inr (paid, good) ↦
          rw (swapping floats w c account ex parsed loaded, good)
            (moved w c.owner_address c.exchange_id account paid ex
              (swapped floats ex c.token_id c.quant) c.token_id (other_token ex c.token_id) _ _
              (trade-Sets floats ex account paid c.token_id c.quant p good)
              (trade-conserves floats ex account paid c.token_id c.quant p good room room')
              (trade-OnlyTokens floats ex account paid c.token_id c.quant good)
              (swapped-OnlyBalances floats ex c.token_id c.quant) loaded.keyed)
    ]
