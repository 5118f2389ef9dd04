-- ===== src/Tests/Stake.antt =====
-- The staking contracts of crates/actuators/src/freeze_v2.rs, and the votes of vote.rs, at concrete inputs.
use tron_rs.Prelude.{
  if◌then◌else◌, Bytes, bytes_eq, pos, ◌+ℤ◌, ◌*ℤ◌, ◌≤ℤ◌, ok, ◌≡◌, refl, ◌⊎◌, false, none, some, [],
  ◌∷◌, arith,
}
use tron_rs.Actuators.Vote.{VoteWitnessContract, vote_precision, tron_power_sun}
use tron_rs.Actuators.Vote
use tron_rs.Actuators.Vote.Power.{validated_vote_within_power, vote_sum, Eligible, none_negative}
use tron_rs.Tests.Toy.{zeros, no_market, blank_account, blank_witness, blank_world}
use tron_rs.Prelude.Endian.{i64_to_be, i64_from_be}
use tron_rs.State.World.{World, Account, valid, get_account, put_account}
use tron_rs.Actuators.Stake.Freeze.{FreezeBalanceV2Contract, validate, execute}
use tron_rs.Actuators.Stake.Freeze
use tron_rs.Actuators.Stake.Wealth.{IsStake, frozen_sum}
use tron_rs.Actuators.Stake.Owns.{Owns}
use tron_rs.Actuators.Stake.Steps.{none_yet, then_step, freezes, Steps-Owns}

abbrev holder : Bytes
holder = 0x41 ∷ zeros 20

abbrev savings : Account
savings = record blank_account {
  address = holder;
  create_time = pos 0;
  balance = pos 5_000_000;
  allowance = pos 0;
  latest_withdraw_time = pos 0;
  asset_v2 = [];
  frozen_v2 = (record { resource = pos 0; amount = pos 1_000_000 }) ∷ [];
  unfrozen_v2 =
      (record { resource = pos 1; unfreeze_amount = pos 7; unfreeze_expire_time = pos 9 }) ∷ [];
  votes = [];
}

-- Staking is on: every property is 14.
abbrev bank : World
bank = record blank_world {
  accounts = λ a. if bytes_eq a holder then some (valid savings) else none;
  brokerages = λ a. none;
  witnesses = λ a. some (valid blank_witness);
  exchanges = λ n. none;
  proposals = λ n. none;
  props = λ k. some (i64_to_be (pos 14));
  market = no_market;
}

abbrev freezing : FreezeBalanceV2Contract
freezing = record { owner_address = holder; frozen_balance = pos 2_000_000; resource = pos 0 }

savings-IsStake : IsStake savings
unfolding ◌+ℤ◌
savings-IsStake = record {
  balance = omega arith;
  frozen = (omega arith, tt);
  unfrozen = (omega arith, tt);
  fits = omega arith;
}

bank-Owns : Owns holder (pos 6_000_007) bank
unfolding get_account bytes_eq ◌+ℤ◌
bank-Owns = record { account = savings; stored = refl; stake = savings-IsStake; same = refl }

Steps-Owns_example : Owns holder (pos 6_000_007) (Freeze.execute bank freezing).0
unfolding Freeze.validate i64_to_be i64_from_be get_account bytes_eq
Steps-Owns_example =
    Steps-Owns holder (pos 6_000_007) bank (Freeze.execute bank freezing).0
      (then_step bank bank (Freeze.execute bank freezing).0 (none_yet bank)
        (freezes bank freezing (pos 0) refl))
      bank-Owns

abbrev ballot : VoteWitnessContract
ballot = record { owner_address = holder; votes = (holder, pos 1) ∷ [] }

validated_vote_within_power_example :
    (Vote.execute bank ballot
      ≡ (put_account holder (record savings { votes = ballot.votes }) bank, ok (pos 0)))
    × (Eligible bank ballot.votes
        × (vote_sum ballot.votes *ℤ vote_precision ≤ℤ tron_power_sun savings))
    × ((none_negative savings.frozen_v2 ≡ false)
        ⊎ (vote_sum ballot.votes *ℤ vote_precision ≤ℤ frozen_sum savings.frozen_v2))
unfolding get_account bytes_eq Vote.validate ◌+ℤ◌ ◌*ℤ◌
validated_vote_within_power_example =
    validated_vote_within_power bank ballot savings (pos 0) refl refl
