-- ===== src/Actuators/Stake/Steps.antt =====
-- Sequences of the staking contracts of crates/actuators/src/freeze_v2.rs, withdraw_unfreeze.rs and
-- cancel_unfreeze.rs, each validated and then executed, whatever its result.
use tron_rs.Actuators.Stake.Owns.{Owns, freeze-Owns, unfreeze-Owns, withdraw-Owns, cancel-Owns}
use tron_rs.Prelude.{Bytes, ℤ, pos, ◌≤ℤ◌, ltb_ℤ, leb_ℤ, ok, fail_if, ◌≡◌, ◌&&◌, not, arith}
use tron_rs.State.World.{World, get_prop_i64, unfreeze_delay_days}
use tron_rs.Actuators.{
  invalid_address, parse_address, need_account, account_not_exists, not_supported,
  frozen_not_positive, resource_code_error, no_frozen_balance, bad_unfreeze_balance,
}
use tron_rs.Actuators
use tron_rs.Actuators.Outcomes.{Ensures, given-Ensures, bind-Ensures, fail_if-ok}
use tron_rs.Actuators.Stake.{is_resource}
use tron_rs.Actuators.Stake.Freeze.{FreezeBalanceV2Contract, validate, execute}
use tron_rs.Actuators.Stake.Unfreeze.{UnfreezeBalanceV2Contract, frozen_amount, has_frozen}
use tron_rs.Actuators.Stake.Expire.{WithdrawExpireUnfreezeContract}
use tron_rs.Actuators.Stake.Cancel.{CancelAllUnfreezeV2Contract}
use tron_rs.Actuators.Stake.Freeze
use tron_rs.Actuators.Stake.Unfreeze
use tron_rs.Actuators.Stake.Expire
use tron_rs.Actuators.Stake.Cancel

freeze_positive :
    (w : World) (c : FreezeBalanceV2Contract)
    → Ensures (pos 0 ≤ℤ c.frozen_balance) (Freeze.validate w c)
unfolding Freeze.validate
freeze_positive w c =
    bind-Ensures
      (fail_if (leb_ℤ (get_prop_i64 w unfreeze_delay_days) (pos 0))
        (Actuators.validate not_supported))
      _
      λ _ _. bind-Ensures (parse_address c.owner_address invalid_address) _ λ owner _.
        bind-Ensures (need_account w owner (Actuators.validate account_not_exists)) _ λ account _.
          let few = leb_ℤ c.frozen_balance (pos 0) in
          bind-Ensures (fail_if few (Actuators.validate frozen_not_positive)) _ λ t e.
            let above = fail_if-ok few (Actuators.validate frozen_not_positive) t e in
            given-Ensures (ground arith)

unfreeze_positive :
    (w : World) (c : UnfreezeBalanceV2Contract)
    → Ensures (pos 0 ≤ℤ c.unfreeze_balance) (Unfreeze.validate w c)
unfolding Unfreeze.validate
unfreeze_positive w c =
    bind-Ensures
      (fail_if (leb_ℤ (get_prop_i64 w unfreeze_delay_days) (pos 0))
        (Actuators.validate not_supported))
      _
      λ _ _. bind-Ensures (parse_address c.owner_address invalid_address) _ λ owner _.
        bind-Ensures (need_account w owner (Actuators.validate account_not_exists)) _ λ account _.
          bind-Ensures
            (fail_if (not (is_resource w c.resource)) (Actuators.validate resource_code_error)) _
            λ _ _.
              bind-Ensures
                (fail_if (not (has_frozen account.frozen_v2 c.resource))
                  (Actuators.validate no_frozen_balance))
                _
                λ _ _.
                  let bad = not (
                    ltb_ℤ (pos 0) c.unfreeze_balance
                    && leb_ℤ c.unfreeze_balance (frozen_amount account.frozen_v2 c.resource)) in
                  bind-Ensures (fail_if bad (Actuators.validate bad_unfreeze_balance)) _ λ t e.
                    let good = fail_if-ok bad (Actuators.validate bad_unfreeze_balance) t e in
                    given-Ensures (ground arith)

-- A staking contract that has been validated is executed.
pub data Step : World → World → Type 0 where
  freezes :
      (w : World) (c : FreezeBalanceV2Contract) (r : ℤ)
      → Freeze.validate w c ≡ ok r
      → Step w (Freeze.execute w c).0
  unfreezes :
      (w : World) (c : UnfreezeBalanceV2Contract) (r : ℤ)
      → Unfreeze.validate w c ≡ ok r
      → Step w (Unfreeze.execute w c).0
  withdraws :
      (w : World) (c : WithdrawExpireUnfreezeContract) (r : ℤ)
      → Expire.validate w c ≡ ok r
      → Step w (Expire.execute w c).0
  cancels :
      (w : World) (c : CancelAllUnfreezeV2Contract) (r : ℤ)
      → Cancel.validate w c ≡ ok r
      → Step w (Cancel.execute w c).0

pub data Steps : World → World → Type 0 where
  none_yet : (w : World) → Steps w w
  then_step : (u v w : World) → Steps u v → Step v w → Steps u w

Step-Owns :
    (addr : Bytes) (owned : ℤ) (v w : World) → Step v w → Owns addr owned v → Owns addr owned w
Step-Owns addr owned _ _ (freezes w c r run) h =
    freeze-Owns addr owned w h c ((freeze_positive w c).holds r run)
Step-Owns addr owned _ _ (unfreezes w c r run) h =
    unfreeze-Owns addr owned w h c ((unfreeze_positive w c).holds r run)
Step-Owns addr owned _ _ (withdraws w c r run) h = withdraw-Owns addr owned w h c
Step-Owns addr owned _ _ (cancels w c r run) h = cancel-Owns addr owned w h c

-- Over any sequence of validated staking contracts, of whatever accounts, an account whose amounts are
-- not negative and fit an i64 together keeps what it owns: balance, frozen and unfreezing amounts add
-- up to the same, and stay well formed.
pub Steps-Owns :
    (addr : Bytes) (owned : ℤ) (v w : World) → Steps v w → Owns addr owned v → Owns addr owned w
Steps-Owns addr owned _ _ (none_yet w) h = h
Steps-Owns addr owned _ _ (then_step u v w steps step) h =
    Step-Owns addr owned v w step (Steps-Owns addr owned u v steps h)
