-- ===== src/Tests/StakeV1.antt =====
-- The first version of staking of crates/actuators/src/freeze_v1.rs at concrete inputs.
use tron_rs.Prelude.Endian.{i64_to_be, i64_from_be}
use tron_rs.Prelude.{
  if◌then◌else◌, Bytes, bytes_eq, pos, ◌+ℤ◌, ◌-ℤ◌, ◌*ℤ◌, int_laws, ok, err, ◌≡◌, refl, none, some,
  [], ◌∷◌, arith,
}
use tron_rs.Tests.Toy.{zeros, blank_world, blank_account}
use tron_rs.State.World.{World, Account, valid, latest_timestamp, get_account, put_prop_i64}
use tron_rs.Actuators.{not_yet_unfreezable}
use tron_rs.Actuators
use tron_rs.Actuators.StakeV1.Freeze.{FreezeBalanceContract, validate, execute}
use tron_rs.Actuators.StakeV1.Unfreeze.{UnfreezeBalanceContract}
use tron_rs.Actuators.StakeV1.Freeze
use tron_rs.Actuators.StakeV1.Unfreeze
use tron_rs.Actuators.StakeV1.{energy_frozen}
use tron_rs.Actuators.StakeV1.Owned.{
  OwnsWhole, freezes, unfreezes, other, none_yet, then_step, Steps-OwnsWhole,
}

abbrev holder : Bytes
holder = 0x41 ∷ 1 ∷ zeros 19

abbrev holders : Account
holders = record blank_account { address = holder; balance = pos 10_000_000 }

abbrev savings : World
savings = record blank_world {
  accounts = λ a. if bytes_eq a holder then some (valid holders) else none;
}

abbrev freezing : FreezeBalanceContract
freezing = record {
  owner_address = holder;
  frozen_balance = pos 4_000_000;
  frozen_duration = pos 3;
  resource = pos 1;
  receiver_address = [];
}

abbrev unfreezing : UnfreezeBalanceContract
unfreezing = record { owner_address = holder; resource = pos 1; receiver_address = [] }

abbrev frozen_world : World
frozen_world = (Freeze.execute savings freezing).0

-- Three days on.
abbrev later : World
later = put_prop_i64 latest_timestamp (pos 259_200_000) frozen_world

abbrev unfrozen_world : World
unfrozen_world = (Unfreeze.execute later unfreezing).0

freezing_passes : Freeze.validate savings freezing ≡ ok (pos 0)
unfolding Freeze.validate get_account bytes_eq
freezing_passes = refl

too_early : Unfreeze.validate frozen_world unfreezing ≡ err (Actuators.validate not_yet_unfreezable)
unfolding Unfreeze.validate Freeze.execute get_account ◌+ℤ◌ ◌*ℤ◌ bytes_eq ◌-ℤ◌
too_early = refl

unfreezing_passes : Unfreeze.validate later unfreezing ≡ ok (pos 0)
unfolding Unfreeze.validate Freeze.execute get_account ◌+ℤ◌ ◌*ℤ◌ bytes_eq ◌-ℤ◌ i64_to_be i64_from_be
unfreezing_passes = refl

later_accounts : later.accounts ≡ frozen_world.accounts
unfolding put_prop_i64
later_accounts = refl

savings-OwnsWhole : OwnsWhole holder (pos 10_000_000) savings
unfolding get_account bytes_eq energy_frozen ◌+ℤ◌
savings-OwnsWhole = record {
  account = holders;
  stored = refl;
  good = record {
    balance = omega arith;
    frozen = tt;
    energy_min = omega arith;
    power_min = omega arith;
    fits = omega int_laws;
  };
  same = refl;
}

Steps-OwnsWhole_example : OwnsWhole holder (pos 10_000_000) unfrozen_world
Steps-OwnsWhole_example =
    Steps-OwnsWhole holder (pos 10_000_000) savings unfrozen_world
      (then_step savings later unfrozen_world
        (then_step savings frozen_world later
          (then_step savings savings frozen_world (none_yet savings)
            (freezes savings freezing (pos 0) freezing_passes))
          (other frozen_world later later_accounts))
        (unfreezes later unfreezing (pos 0) unfreezing_passes))
      savings-OwnsWhole
