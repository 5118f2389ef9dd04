-- ===== src/Tests/Ledger.antt =====
-- The world state of crates/state and the transfer of crates/actuators at concrete inputs.
use tron_rs.Prelude.{
  ◌==◌, if◌then◌else◌, Bytes, bytes_eq, pos, negsuc, ◌+ℤ◌, ◌-ℤ◌, wrap_i64, add_i64, sub_i64, ok,
  err, ◌≡◌, refl, inr, none, some, [], ◌∷◌, arith,
}
use tron_rs.Tests.Toy.{zeros, no_market, blank_account, blank_witness, blank_world}
use tron_rs.Prelude.Endian.{i64_to_be, i64_from_be}
use tron_rs.State.World.{
  World, Account, valid, tag, get_account, account_exists, get_prop_i64, put_prop_i64,
  fresh_account, get_brokerage, change_delegation, feature_enabled,
}
use tron_rs.Actuators.{no_allowance}
use tron_rs.Actuators
use tron_rs.Actuators.Withdraw.{WithdrawBalanceContract}
use tron_rs.Actuators.Withdraw
use tron_rs.Actuators.Brokerage.{UpdateBrokerageContract}
use tron_rs.Actuators.Brokerage
use tron_rs.Actuators.Brokerage.Split.{brokerage_sets_split}
use tron_rs.Consensus.Reward.{split_reward}
use tron_rs.Actuators.Withdraw.Once.{withdraw_once}
use tron_rs.Actuators.Transfer.{TransferContract, validate, execute}
use tron_rs.Actuators.Transfer.Exact.{burnt, with_balance}
use tron_rs.Actuators.Transfer.Validated.{transfer-exact}

abbrev alice : Bytes
alice = 0x41 ∷ 1 ∷ zeros 19

abbrev bob : Bytes
bob = 0x41 ∷ 2 ∷ zeros 19

abbrev alices : Account
alices = record blank_account {
  address = alice;
  create_time = pos 0;
  balance = pos 1_000_000;
  allowance = pos 0;
  latest_withdraw_time = pos 0;
  asset_v2 = [];
  frozen_v2 = [];
  unfrozen_v2 = [];
  votes = [];
}

-- Only the fee for a new account is set, to 100000.
abbrev world : World
world = record blank_world {
  accounts = λ a. if bytes_eq a alice then some (valid alices) else none;
  brokerages = λ a. none;
  witnesses = λ a. if bytes_eq a alice then some (valid blank_witness) else none;
  exchanges = λ n. none;
  proposals = λ n. none;
  props = λ k. if tag k == 0 then some (0 ∷ 0 ∷ 0 ∷ 0 ∷ 0 ∷ 1 ∷ 134 ∷ 160 ∷ []) else none;
  market = no_market;
}

abbrev contract : TransferContract
contract = record { owner_address = alice; to_address = bob; amount = pos 300_000 }

transfer-exact_example :
    ((execute world contract).1 ≡ ok (pos 100_000))
    × ((a : Bytes)
        → get_account (execute world contract).0 a ≡ (
            if bytes_eq bob a
            then ok (some (with_balance (fresh_account world bob) (pos 0 +ℤ pos 300_000)))
            else if bytes_eq alice a
            then ok (some (with_balance alices (pos 1_000_000 -ℤ (pos 300_000 +ℤ pos 100_000))))
            else get_account world a))
    × (burnt (execute world contract).0 ≡ burnt world +ℤ pos 100_000)
unfolding fresh_account validate get_account account_exists bytes_eq i64_from_be get_prop_i64 ◌+ℤ◌
    add_i64 wrap_i64
transfer-exact_example =
    transfer-exact world contract (pos 100_000) alices (fresh_account world bob) refl (record {
      has_owner = refl;
      receiver = inr (refl, refl);
      from_max = omega arith;
      target_min = omega arith;
      target_max = omega arith;
      fee_nonneg = omega arith;
      burnt_nonneg = omega arith;
      burnt_max = omega arith;
    })

abbrev earner : World
earner = record world {
  accounts = λ a.
      if bytes_eq a alice
      then some
          (valid (record alices { allowance = pos 700; latest_withdraw_time = negsuc 90_000_000 }))
      else none;
}

abbrev claim : WithdrawBalanceContract
claim = record { owner_address = alice }

withdraw_once_example :
    ((Withdraw.execute earner claim).1 ≡ ok (pos 0))
    × ((a : Bytes)
        → get_account (Withdraw.execute earner claim).0 a ≡ (
            if bytes_eq alice a
            then ok (
                some (record alices {
                  balance = pos 1_000_000 +ℤ pos 700;
                  allowance = pos 0;
                  latest_withdraw_time = pos 0;
                }))
            else get_account earner a))
    × (Withdraw.validate (Withdraw.execute earner claim).0 claim
        ≡ err (Actuators.validate no_allowance))
unfolding Withdraw.validate get_account get_prop_i64 bytes_eq ◌+ℤ◌ sub_i64 wrap_i64 ◌-ℤ◌
withdraw_once_example =
    withdraw_once earner claim (pos 0)
      (record alices { allowance = pos 700; latest_withdraw_time = negsuc 90_000_000 }) refl refl
      (omega arith, omega arith)

-- The changes of the brokerage are on.
abbrev delegating : World
delegating = put_prop_i64 change_delegation (pos 1) world

abbrev update : UpdateBrokerageContract
update = record { owner_address = alice; brokerage = pos 35 }

brokerage_sets_split_example :
    ((Brokerage.execute delegating update).1 ≡ ok (pos 0))
    × ((a : Bytes)
        → get_brokerage (Brokerage.execute delegating update).0 a
          ≡ (if bytes_eq alice a then pos 35 else get_brokerage delegating a))
    × ((split_reward (pos 1_000) (get_brokerage (Brokerage.execute delegating update).0 alice)).0
        ≡ pos 350)
unfolding Brokerage.validate put_prop_i64 i64_to_be i64_from_be feature_enabled bytes_eq
brokerage_sets_split_example =
    brokerage_sets_split delegating update (pos 0) 1_000 refl (omega arith)
