-- ===== src/Actuators/Stake.antt =====
-- The second version of staking: crates/actuators/src/freeze_v2.rs, withdraw_unfreeze.rs and
-- cancel_unfreeze.rs. Here are the parts that the contracts share.
pub mod Freeze
pub mod Unfreeze
pub mod Expire
pub mod Cancel
pub mod Wealth
pub mod Released
pub mod Owns
pub mod Steps
use tron_rs.Prelude.{if◌then◌else◌, ℤ, pos, ltb_ℤ, eqb_ℤ, Bool, ◌&&◌, ◌||◌, Option, none, some}
use tron_rs.State.World.{
  World, PropKey, total_net_weight, total_energy_weight, total_tron_power_weight,
  allow_new_resource_model, get_prop_i64, add_prop_i64,
}

-- `TRX_PRECISION`: sun per TRX.
abbrev pub trx_precision : ℤ
trx_precision = pos 1_000_000

-- `ResourceCode`
abbrev pub bandwidth : ℤ
bandwidth = pos 0

abbrev pub energy : ℤ
energy = pos 1

abbrev pub tron_power : ℤ
tron_power = pos 2

unfoldable pub total_weight_key : ℤ → Option PropKey
total_weight_key resource =
    if eqb_ℤ resource bandwidth
    then some total_net_weight
    else if eqb_ℤ resource energy
    then some total_energy_weight
    else if eqb_ℤ resource tron_power
    then some total_tron_power_weight
    else none

-- The weight of a resource, when it has one, changes by so many TRX.
unfoldable pub add_weight : ℤ → ℤ → World → World
unfolding total_weight_key add_prop_i64
add_weight resource delta w = elim (total_weight_key resource) [
  | none ↦ w
  | some key ↦ add_prop_i64 key delta w
]

-- Bandwidth and energy, and TRON power once the new resource model is on.
unfoldable pub is_resource : World → ℤ → Bool
unfolding get_prop_i64
is_resource w resource =
    eqb_ℤ resource bandwidth
    || eqb_ℤ resource energy
    || (eqb_ℤ resource tron_power && ltb_ℤ (pos 0) (get_prop_i64 w allow_new_resource_model))
