-- ===== src/Tests/Dex.antt =====
-- The exchange of crates/actuators/src/exchange.rs at concrete inputs.
use tron_rs.Prelude.{
  if◌then◌else◌, Bytes, bytes_eq, ℤ, pos, ◌+ℤ◌, ◌-ℤ◌, ◌*ℤ◌, quot_ℤ, eqb_ℤ, ◌≡◌, refl, inl, false,
  none, some, [], ◌∷◌, arith,
}
use tron_rs.Tests.Toy.{zeros, no_market, blank_account, blank_world}
use tron_rs.State.World.{World, Account, Exchange, valid, get_account}
use tron_rs.Actuators.{exchange_missing, execute}
use tron_rs.Actuators
use tron_rs.Actuators.Dex.{Floats, trx_symbol_bytes, get_exchange}
use tron_rs.Actuators.Dex.Create
use tron_rs.Actuators.Dex.Inject
use tron_rs.Actuators.Dex.Withdraw
use tron_rs.Actuators.Dex.Swap.{ExchangeTransactionContract}
use tron_rs.Actuators.Dex.Swap
use tron_rs.Actuators.Dex.Conserve.{IsPool}
use tron_rs.Actuators.Dex.Settled.{IsLoaded, Moved}
use tron_rs.Actuators.Dex.Executed.{inject-moves, withdraw-moves, swap-moves}
use tron_rs.Actuators.Dex.Atomic.{swap_err}

abbrev trader : Bytes
trader = 0x41 ∷ 9 ∷ zeros 19

-- The token with the id "1".
abbrev token : Bytes
token = 49 ∷ []

abbrev traders : Account
traders = record blank_account {
  address = trader;
  create_time = pos 0;
  balance = pos 5_000;
  allowance = pos 0;
  latest_withdraw_time = pos 0;
  asset_v2 = (token, pos 300) ∷ [];
  frozen_v2 = [];
  unfrozen_v2 = [];
  votes = [];
}

abbrev listed : Exchange
listed = record {
  exchange_id = pos 1;
  creator_address = trader;
  create_time = pos 0;
  first_token_id = trx_symbol_bytes;
  first_token_balance = pos 1_000;
  second_token_id = token;
  second_token_balance = pos 2_000;
}

abbrev market : World
market = record blank_world {
  accounts = λ a. if bytes_eq a trader then some (valid traders) else none;
  brokerages = λ a. none;
  witnesses = λ a. none;
  exchanges = λ n. if eqb_ℤ n (pos 1) then some (valid listed) else none;
  proposals = λ n. none;
  props = λ k. none;
  market = no_market;
}

-- A pricing that pays half of what is sold.
abbrev half_price : Floats
half_price = record {
  bancor_exchange = λ sell buy quant. quot_ℤ quant (pos 2);
  imprecise = λ other quant this another. false;
}

listed-IsLoaded : IsLoaded market trader (pos 1) traders listed
unfolding get_account get_exchange bytes_eq
listed-IsLoaded = record { has_owner = refl; has_pool = refl; keyed = refl }

listed-IsPool : IsPool listed trx_symbol_bytes
unfolding bytes_eq
listed-IsPool = record { apart = refl; member = inl refl }

abbrev injection : ℤ → Inject.ExchangeInjectContract
injection id = record {
  owner_address = trader;
  exchange_id = id;
  token_id = trx_symbol_bytes;
  quant = pos 10;
}

inject-moves_example :
    Moved market trader
      (pos 1)
      traders
      listed
      trx_symbol_bytes
      token
      (pos 4990)
      (pos 280)
      (Inject.execute market (injection (pos 1))).0
unfolding Inject.execute bytes_eq quot_ℤ ◌*ℤ◌ ◌+ℤ◌ get_account ◌-ℤ◌
inject-moves_example =
    inject-moves market (injection (pos 1)) (pos 0) (pos 20) traders listed refl listed-IsLoaded
      listed-IsPool refl (omega arith, omega arith) (omega arith, omega arith) refl

abbrev withdrawal : ℤ → Withdraw.ExchangeWithdrawContract
withdrawal id = record {
  owner_address = trader;
  exchange_id = id;
  token_id = trx_symbol_bytes;
  quant = pos 10;
}

withdraw-moves_example :
    Moved market trader
      (pos 1)
      traders
      listed
      trx_symbol_bytes
      token
      (pos 5010)
      (pos 320)
      (Withdraw.execute market (withdrawal (pos 1))).0
unfolding Withdraw.execute bytes_eq quot_ℤ ◌*ℤ◌ ◌+ℤ◌ get_account ◌-ℤ◌
withdraw-moves_example =
    withdraw-moves market (withdrawal (pos 1)) (pos 0) (pos 20) traders listed refl listed-IsLoaded
      listed-IsPool refl (omega arith, omega arith) (omega arith, omega arith) refl

abbrev order : ℤ → Swap.ExchangeTransactionContract
order id = record {
  owner_address = trader;
  exchange_id = id;
  token_id = trx_symbol_bytes;
  quant = pos 10;
  expected = pos 5;
}

swap-moves_example :
    Moved market trader
      (pos 1)
      traders
      listed
      trx_symbol_bytes
      token
      (pos 4990)
      (pos 305)
      (Swap.execute half_price market (order (pos 1))).0
unfolding Swap.execute ◌+ℤ◌ bytes_eq ◌-ℤ◌ quot_ℤ get_account
swap-moves_example =
    swap-moves half_price market (order (pos 1)) (pos 0) traders listed refl listed-IsLoaded
      listed-IsPool (omega arith, omega arith) (omega arith, omega arith) refl

swap_err_example : (Swap.execute half_price market (order (pos 2))).0 ≡ market
unfolding Swap.execute
swap_err_example =
    swap_err half_price market (order (pos 2)) (Actuators.execute exchange_missing) refl

abbrev creation : Create.ExchangeCreateContract
creation = record {
  owner_address = trader;
  first_token_id = trx_symbol_bytes;
  first_token_balance = pos 100;
  second_token_id = token;
  second_token_balance = pos 100;
}

-- The fee of 1024 TRX is more than the balance.
