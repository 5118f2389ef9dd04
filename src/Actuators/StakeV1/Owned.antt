-- ===== src/Actuators/StakeV1/Owned.antt =====
-- Sequences of the two contracts of crates/actuators/src/freeze_v1.rs leave to every account what it owns.
use mathlib.Core.Path.{subst}
use tron_rs.Prelude.{
  Bool-cases, Bytes, bytes_eq, ℤ, pos, ◌+ℤ◌, ◌*ℤ◌, ◌≤ℤ◌, checked, saturating, Result, ok, ok_or,
  ◌≡◌, refl, sym, ap, ◌∙◌, inl, inr, Option, some, arith,
}
use tron_rs.Prelude.Endian.{bytes_eq_iff}
use tron_rs.State.World.{
  World, Account, latest_timestamp, StateError, read_cell, get_account, put_account, get_prop_i64,
  put_prop_i64, add_prop_i64,
}
use tron_rs.Actuators.{
  invalid_address, long_overflow, owner_account_missing, parse_address, need_account,
}
use tron_rs.Actuators
use tron_rs.Actuators.Outcomes.{try_then, OnOk-true, need_account_found, OnOk-given}
use tron_rs.Actuators.StakeV1.{frozen_balance, change_weight}
use tron_rs.Actuators.StakeV1.Freeze.{freeze, FreezeBalanceContract, validate, execute}
use tron_rs.Actuators.StakeV1.Unfreeze.{unfreeze, UnfreezeBalanceContract}
use tron_rs.Actuators.StakeV1.Freeze
use tron_rs.Actuators.StakeV1.Unfreeze
use tron_rs.Actuators.StakeV1
use tron_rs.Actuators.Stake.Unfreeze.{frozen_period_ms}
use tron_rs.Actuators.StakeV1.Whole.{whole, IsWhole, Kept, freeze-Kept}
use tron_rs.Actuators.StakeV1.Release.{unfreeze-Kept}

-- The account at an address is well formed and owns so much.
pub record OwnsWhole (addr : Bytes) (owned : ℤ) (w : World) : Type 0 where
  pub account : Account
  pub stored : get_account w addr ≡ ok (some account)
  pub good : IsWhole account
  pub same : whole account ≡ owned

found_is :
    (r : Result StateError (Option Account)) (a b : Account)
    → r ≡ ok (some a)
    → r ≡ ok (some b)
    → a ≡ b
found_is r a b e f = ground arith

-- A contract stores what is left of its owner's account, and changes a total of weights.
put-OwnsWhole :
    (addr owner : Bytes) (owned : ℤ) (w : World) (account account' : Account) (resource old new : ℤ)
    → get_account w owner ≡ ok (some account)
    → (IsWhole account → Kept account account')
    → OwnsWhole addr owned w
    → OwnsWhole addr owned (change_weight resource old new (put_account owner account' w))
unfolding get_account put_account change_weight add_prop_i64 put_prop_i64
put-OwnsWhole addr owner owned w account account' resource old new found keep h =
    elim (Bool-cases (bytes_eq owner addr)) [
      | inl e ↦
          let here =
            subst (λ a. get_account w a ≡ ok (some account)) ((bytes_eq_iff owner addr).0 e)
              found in
          let same = found_is (get_account w addr) h.account account h.stored here in
          let k = keep (subst IsWhole same h.good) in
          record {
            account = account';
            stored = rw e refl;
            good = k.good;
            same = k.same ∙ ap whole (sym same) ∙ h.same;
          }
      | inr e ↦ record { account = h.account; stored = rw e h.stored; good = h.good; same = h.same }
    ]

freeze_positive :
    (w : World) (c : FreezeBalanceContract) (r : ℤ)
    → Freeze.validate w c ≡ ok r
    → pos 0 ≤ℤ c.frozen_balance
unfolding Freeze.validate
freeze_positive w c r run = ground arith

freeze-OwnsWhole :
    (addr : Bytes) (owned : ℤ) (w : World) (c : FreezeBalanceContract)
    → pos 0 ≤ℤ c.frozen_balance
    → OwnsWhole addr owned w
    → OwnsWhole addr owned (Freeze.execute w c).0
unfolding Freeze.execute
freeze-OwnsWhole addr owned w c positive h =
    let period = saturating (c.frozen_duration *ℤ frozen_period_ms) in
    try_then (OwnsWhole addr owned) _ w (parse_address c.owner_address invalid_address) _ h
      (OnOk-true _)
      λ owner _.
        try_then (OwnsWhole addr owned) _ w
          (ok_or (checked (get_prop_i64 w latest_timestamp +ℤ period))
            (Actuators.execute long_overflow))
          _ h (OnOk-true _)
          λ expire _.
            try_then (OwnsWhole addr owned) _ w
              (need_account w owner (Actuators.execute owner_account_missing)) _ h
              (need_account_found w owner _)
              λ account found.
                try_then (OwnsWhole addr owned) _ w
                  (freeze account c.resource c.frozen_balance expire) _ h
                  (OnOk-given (λ frozen. Kept account frozen.0)
                    (freeze account c.resource c.frozen_balance expire)
                    (λ good. freeze-Kept account c.resource c.frozen_balance expire good positive))
                  λ frozen k.
                    put-OwnsWhole addr owner owned w account frozen.0 c.resource
                      (StakeV1.frozen_balance account c.resource) frozen.1 found k h

unfreeze-OwnsWhole :
    (addr : Bytes) (owned : ℤ) (w : World) (c : UnfreezeBalanceContract)
    → OwnsWhole addr owned w
    → OwnsWhole addr owned (Unfreeze.execute w c).0
unfolding Unfreeze.execute
unfreeze-OwnsWhole addr owned w c h =
    let now = get_prop_i64 w latest_timestamp in
    try_then (OwnsWhole addr owned) _ w (parse_address c.owner_address invalid_address) _ h
      (OnOk-true _)
      λ owner _.
        try_then (OwnsWhole addr owned) _ w
          (need_account w owner (Actuators.execute owner_account_missing)) _ h
          (need_account_found w owner _)
          λ account found.
            try_then (OwnsWhole addr owned) _ w (unfreeze account c.resource now) _ h
              (OnOk-given (Kept account) (unfreeze account c.resource now)
                (λ good. unfreeze-Kept account c.resource now good))
              λ after k.
                put-OwnsWhole addr owner owned w account after c.resource
                  (StakeV1.frozen_balance account c.resource)
                  (StakeV1.frozen_balance after c.resource) found k h

-- A contract that has been validated is executed, or something else happens that leaves the accounts alone.
pub data Step : World → World → Type 0 where
  freezes :
      (w : World) (c : FreezeBalanceContract) (r : ℤ)
      → Freeze.validate w c ≡ ok r
      → Step w (Freeze.execute w c).0
  unfreezes :
      (w : World) (c : UnfreezeBalanceContract) (r : ℤ)
      → Unfreeze.validate w c ≡ ok r
      → Step w (Unfreeze.execute w c).0
  other : (v w : World) → w.accounts ≡ v.accounts → Step v w

pub data Steps : World → World → Type 0 where
  none_yet : (w : World) → Steps w w
  then_step : (u v w : World) → Steps u v → Step v w → Steps u w

Step-OwnsWhole :
    (addr : Bytes) (owned : ℤ) (v w : World)
    → Step v w
    → OwnsWhole addr owned v
    → OwnsWhole addr owned w
unfolding get_account
Step-OwnsWhole addr owned _ _ (freezes w c r run) h =
    freeze-OwnsWhole addr owned w c (freeze_positive w c r run) h
Step-OwnsWhole addr owned _ _ (unfreezes w c r run) h = unfreeze-OwnsWhole addr owned w c h
Step-OwnsWhole addr owned _ _ (other v w e) h = record {
  account = h.account;
  stored = ap (λ f. read_cell (f addr)) e ∙ h.stored;
  good = h.good;
  same = h.same;
}

-- Over any sequence of the first version's validated contracts, of whatever accounts and with other events
-- between them, an account whose amounts are not negative and fit an i64 together keeps what it owns: its
-- balance and what it has frozen for the three resources add up to the same, and stay well formed.
pub Steps-OwnsWhole :
    (addr : Bytes) (owned : ℤ) (v w : World)
    → Steps v w
    → OwnsWhole addr owned v
    → OwnsWhole addr owned w
Steps-OwnsWhole addr owned _ _ (none_yet w) h = h
Steps-OwnsWhole addr owned _ _ (then_step u v w steps step) h =
    Step-OwnsWhole addr owned v w step (Steps-OwnsWhole addr owned u v steps h)
