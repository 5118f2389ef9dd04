-- ===== src/Actuators/Stake/Unfreeze.antt =====
-- `UnfreezeBalanceV2Actuator` of crates/actuators/src/freeze_v2.rs.
use tron_rs.Prelude.{
  leb, if◌then◌else◌, Bytes, ℤ, pos, ◌-ℤ◌, ◌*ℤ◌, quot_ℤ, ltb_ℤ, leb_ℤ, eqb_ℤ, checked, Result, ok,
  err, ◌>>=◌, ◌>>◌, fail_if, ok_or, ℕ, suc, Bool, false, ◌&&◌, ◌||◌, not, List, [], ◌∷◌, ◌++◌,
}
use tron_rs.State.World.{
  World, FreezeV2, UnfreezeV2, Account, latest_timestamp, unfreeze_delay_days, put_account,
  get_prop_i64,
}
use tron_rs.Actuators.{
  ActuatorError, Outcome, invalid_address, long_overflow, owner_account_missing, account_not_exists,
  not_supported, resource_code_error, no_frozen_balance, bad_unfreeze_balance, too_many_unfreezes,
  frozen_not_sufficient, parse_address, need_account, try, debit, credit,
}
use tron_rs.Actuators
use tron_rs.Actuators.Stake.{trx_precision, add_weight, is_resource}

abbrev pub frozen_period_ms : ℤ
frozen_period_ms = pos 86_400_000

abbrev pub default_unfreeze_delay_days : ℤ
default_unfreeze_delay_days = pos 14

abbrev pub unfreeze_max_times : ℕ
unfreeze_max_times = 32

pub record UnfreezeBalanceV2Contract : Type 0 where
  pub owner_address : Bytes
  pub unfreeze_balance : ℤ
  pub resource : ℤ

-- Some entry of the resource is above 0.
unfoldable pub has_frozen : List FreezeV2 → ℤ → Bool
has_frozen [] resource = false
has_frozen (f ∷ frozen) resource =
    (eqb_ℤ f.resource resource && ltb_ℤ (pos 0) f.amount) || has_frozen frozen resource

-- The amount of the first entry of the resource.
unfoldable pub frozen_amount : List FreezeV2 → ℤ → ℤ
frozen_amount [] resource = pos 0
frozen_amount (f ∷ frozen) resource =
    let rest = frozen_amount frozen resource in if eqb_ℤ f.resource resource then f.amount else rest

-- The entries that have not expired.
unfoldable pub pending_count : List UnfreezeV2 → ℤ → ℕ
pending_count [] now = 0
pending_count (u ∷ unfrozen) now =
    let rest = pending_count unfrozen now in
    if ltb_ℤ now u.unfreeze_expire_time then suc rest else rest

unfoldable pub validate : World → UnfreezeBalanceV2Contract → Result ActuatorError ℤ
unfolding parse_address need_account is_resource has_frozen frozen_amount pending_count
validate w c = do
  fail_if (leb_ℤ (get_prop_i64 w unfreeze_delay_days) (pos 0)) (Actuators.validate not_supported)
  owner ← parse_address c.owner_address invalid_address
  account ← need_account w owner (Actuators.validate account_not_exists)
  fail_if (not (is_resource w c.resource)) (Actuators.validate resource_code_error)
  fail_if (not (has_frozen account.frozen_v2 c.resource)) (Actuators.validate no_frozen_balance)
  fail_if
      (not (
        ltb_ℤ (pos 0) c.unfreeze_balance
        && leb_ℤ c.unfreeze_balance (frozen_amount account.frozen_v2 c.resource)))
      (Actuators.validate bad_unfreeze_balance)
  fail_if
      (leb unfreeze_max_times (pending_count account.unfrozen_v2 (get_prop_i64 w latest_timestamp)))
      (Actuators.validate too_many_unfreezes)
  ok (pos 0)

-- The first entry of the resource less the amount.
unfoldable pub take_frozen : List FreezeV2 → ℤ → ℤ → Result ActuatorError (List FreezeV2)
unfolding debit
take_frozen [] resource amount = err (Actuators.execute no_frozen_balance)
take_frozen (f ∷ frozen) resource amount =
    let rest = take_frozen frozen resource amount in
    if eqb_ℤ f.resource resource
    then (do
      less ← debit f.amount amount frozen_not_sufficient
      ok ((record f { amount = less }) ∷ frozen))
    else (do less ← rest; ok (f ∷ less))

unfoldable pub unfreeze_delay_ms : World → Result ActuatorError ℤ
unfolding get_prop_i64
unfreeze_delay_ms w =
    let days = get_prop_i64 w unfreeze_delay_days in
    let days' = if ltb_ℤ (pos 0) days then days else default_unfreeze_delay_days in
    ok_or (checked (days' *ℤ frozen_period_ms)) (Actuators.execute long_overflow)

-- The account with the amount moved to an entry that expires.
unfoldable pub unfreeze :
    Account → ℤ → ℤ → Result ActuatorError ℤ → ℤ → Result ActuatorError Account
unfolding take_frozen credit
unfreeze account resource amount delay now = do
  frozen ← take_frozen account.frozen_v2 resource amount
  ms ← delay
  expire_time ← credit now ms
  ok (record account {
    frozen_v2 = frozen;
    unfrozen_v2 =
        account.unfrozen_v2
        ++ (record {
          resource = resource;
          unfreeze_amount = amount;
          unfreeze_expire_time = expire_time;
        })
          ∷ [];
  })

unfoldable pub execute : World → UnfreezeBalanceV2Contract → Outcome
unfolding parse_address need_account unfreeze unfreeze_delay_ms put_account add_weight
execute w c = try w (parse_address c.owner_address invalid_address) λ owner.
    try w (need_account w owner (Actuators.execute owner_account_missing)) λ account.
      try w
        (unfreeze account c.resource c.unfreeze_balance (unfreeze_delay_ms w)
          (get_prop_i64 w latest_timestamp))
        λ unfrozen. (
          add_weight c.resource (pos 0 -ℤ quot_ℤ c.unfreeze_balance trx_precision)
              (put_account owner unfrozen w),
          ok (pos 0),
        )
