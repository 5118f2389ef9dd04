-- ===== src/Actuators/Stake/Cancel.antt =====
-- `CancelAllUnfreezeV2Actuator` of crates/actuators/src/cancel_unfreeze.rs.
use tron_rs.Prelude.{
  if◌then◌else◌, Bytes, ℤ, pos, quot_ℤ, eqb_ℤ, add_i64, Result, ok, err, ◌>>=◌, ◌>>◌, List, [], ◌∷◌,
}
use tron_rs.State.World.{
  World, UnfreezeV2, FreezeV2, Account, PropKey, latest_timestamp, total_net_weight,
  total_energy_weight, total_tron_power_weight, allow_cancel_all_unfreeze_v2, put_account,
  get_prop_i64, add_prop_i64,
}
use tron_rs.Actuators.{
  ActuatorError, Outcome, invalid_address, owner_account_missing, account_not_exists,
  no_unfreeze_list, parse_address, need_account, require_feature, try, credit,
}
use tron_rs.Actuators
use tron_rs.Actuators.Stake.{energy, trx_precision, bandwidth, tron_power}
use tron_rs.Actuators.Stake.Expire.{is_matured}

pub record CancelAllUnfreezeV2Contract : Type 0 where
  pub owner_address : Bytes

unfoldable pub validate : World → CancelAllUnfreezeV2Contract → Result ActuatorError ℤ
unfolding require_feature parse_address need_account
validate w c = do
  require_feature w allow_cancel_all_unfreeze_v2
  owner ← parse_address c.owner_address invalid_address
  account ← need_account w owner (Actuators.validate account_not_exists)
  elim account.unfrozen_v2 [ [] ↦ err (Actuators.validate no_unfreeze_list) | _ ∷ _ ↦ ok (pos 0) ]

-- What the loop keeps: the amount to withdraw, the frozen entries, and what is frozen again of each
-- resource.
pub record Cancelled : Type 0 where
  pub withdraw : ℤ
  pub frozen : List FreezeV2
  pub net_refrozen : ℤ
  pub energy_refrozen : ℤ
  pub power_refrozen : ℤ

-- Onto the first entry of the resource, or a new one.
unfoldable pub refreeze : List FreezeV2 → ℤ → ℤ → List FreezeV2
refreeze [] resource amount = (record { resource = resource; amount = amount }) ∷ []
refreeze (f ∷ frozen) resource amount =
    let rest = refreeze frozen resource amount in
    if eqb_ℤ f.resource resource
    then (record f { amount = add_i64 f.amount amount }) ∷ frozen
    else f ∷ rest

abbrev pub slot : ℤ → ℤ → ℤ → ℤ → ℤ
slot index resource amount total = if eqb_ℤ resource index then add_i64 total amount else total

unfoldable pub cancel_one : ℤ → UnfreezeV2 → Cancelled → Cancelled
unfolding refreeze
cancel_one now u s =
    if is_matured now u
    then record s { withdraw = add_i64 s.withdraw u.unfreeze_amount }
    else record {
      withdraw = s.withdraw;
      frozen = refreeze s.frozen u.resource u.unfreeze_amount;
      net_refrozen = slot bandwidth u.resource u.unfreeze_amount s.net_refrozen;
      energy_refrozen = slot energy u.resource u.unfreeze_amount s.energy_refrozen;
      power_refrozen = slot tron_power u.resource u.unfreeze_amount s.power_refrozen;
    }

unfoldable pub cancel_each : ℤ → List UnfreezeV2 → Cancelled → Cancelled
unfolding cancel_one
cancel_each now [] s = s
cancel_each now (u ∷ unfrozen) s = cancel_each now unfrozen (cancel_one now u s)

abbrev pub start : Account → Cancelled
start account = record {
  withdraw = pos 0;
  frozen = account.frozen_v2;
  net_refrozen = pos 0;
  energy_refrozen = pos 0;
  power_refrozen = pos 0;
}

-- The account once the loop has ended.
unfoldable pub settled : Account → Cancelled → Result ActuatorError Account
unfolding credit
settled account s = do
  balance ← credit account.balance s.withdraw
  ok (record account { balance = balance; frozen_v2 = s.frozen; unfrozen_v2 = [] })

-- Nothing is written for an amount of 0.
unfoldable pub restore_weight : PropKey → ℤ → World → World
unfolding add_prop_i64
restore_weight key amount w =
    if eqb_ℤ amount (pos 0) then w else add_prop_i64 key (quot_ℤ amount trx_precision) w

unfoldable pub restore_weights : Cancelled → World → World
unfolding restore_weight
restore_weights s w = restore_weight total_tron_power_weight s.power_refrozen (
    restore_weight total_energy_weight s.energy_refrozen
      (restore_weight total_net_weight s.net_refrozen w))

unfoldable pub execute : World → CancelAllUnfreezeV2Contract → Outcome
unfolding parse_address need_account cancel_each settled put_account restore_weights
execute w c = try w (parse_address c.owner_address invalid_address) λ owner.
    try w (need_account w owner (Actuators.execute owner_account_missing)) λ account.
      let s = cancel_each (get_prop_i64 w latest_timestamp) account.unfrozen_v2 (start account) in
      try w (settled account s) λ done. (restore_weights s (put_account owner done w), ok (pos 0))
