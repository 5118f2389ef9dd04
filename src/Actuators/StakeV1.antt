-- ===== src/Actuators/StakeV1.antt =====
-- crates/actuators/src/freeze_v1.rs: the first version of staking, for the account itself. Here are the
-- parts that its two contracts share.
pub mod Freeze
pub mod Unfreeze
pub mod Whole
pub mod Release
pub mod Owned
use tron_rs.Prelude.{
  if◌then◌else◌, ℤ, pos, quot_ℤ, eqb_ℤ, add_i64, sub_i64, Option, none, some, List, [], ◌∷◌,
}
use tron_rs.State.World.{
  World, Frozen, Account, PropKey, total_net_weight, total_energy_weight, total_tron_power_weight,
  add_prop_i64,
}
use tron_rs.Actuators.Stake.{trx_precision, energy, tron_power}
use tron_rs.Actuators.Delegation.{resource_of}

unfoldable pub weight_key : ℤ → PropKey
weight_key resource =
    if eqb_ℤ resource energy
    then total_energy_weight
    else if eqb_ℤ resource tron_power
    then total_tron_power_weight
    else total_net_weight

abbrev pub amount_of : Option Frozen → ℤ
amount_of none = pos 0
amount_of (some f) = f.frozen_balance

-- `iter().map(|f| f.frozen_balance).sum()`, from the left.
unfoldable pub sum_frozen : ℤ → List Frozen → ℤ
sum_frozen acc [] = acc
sum_frozen acc (f ∷ frozen) = sum_frozen (add_i64 acc f.frozen_balance) frozen

-- The frozen energy of the account, if it has any.
unfoldable pub energy_frozen : Account → Option Frozen
energy_frozen account = elim account.account_resource [
  | none ↦ none
  | some r ↦ r.frozen_balance_for_energy
]

unfoldable pub frozen_balance : Account → ℤ → ℤ
unfolding energy_frozen sum_frozen
frozen_balance account resource =
    if eqb_ℤ resource energy
    then amount_of (energy_frozen account)
    else if eqb_ℤ resource tron_power
    then amount_of account.tron_power
    else sum_frozen (pos 0) account.frozen

-- The entry of the resource is replaced.
unfoldable pub set_frozen : Account → ℤ → Frozen → Account
unfolding resource_of
set_frozen account resource frozen =
    if eqb_ℤ resource energy
    then record account {
      account_resource =
          some (record (resource_of account) { frozen_balance_for_energy = some frozen });
    }
    else if eqb_ℤ resource tron_power
    then record account { tron_power = some frozen }
    else record account { frozen = frozen ∷ [] }

-- The weight changes by what the whole TRX of the frozen balance changed by.
unfoldable pub change_weight : ℤ → ℤ → ℤ → World → World
unfolding weight_key add_prop_i64
change_weight resource old new w =
    add_prop_i64 (weight_key resource)
      (sub_i64 (quot_ℤ new trx_precision) (quot_ℤ old trx_precision)) w
