-- ===== src/Actuators/Stake/Owns.antt =====
-- Each of the contracts of crates/actuators/src/freeze_v2.rs, withdraw_unfreeze.rs and
-- cancel_unfreeze.rs leaves to every account what it owns.
use tron_rs.Prelude.Endian.{bytes_eq_iff}
use mathlib.Core.Path.{subst}
use tron_rs.Prelude.{
  Bool-cases, Bytes, bytes_eq, ℤ, pos, ◌-ℤ◌, quot_ℤ, ◌≤ℤ◌, eqb_ℤ, Result, ok, ◌≡◌, refl, sym, ap,
  ◌∙◌, inl, inr, Option, none, some, arith,
}
use tron_rs.State.World.{
  World, Account, StateError, read_cell, get_account, put_account, PropKey, put_prop_i64,
  add_prop_i64, latest_timestamp, get_prop_i64, total_net_weight, total_energy_weight,
  total_tron_power_weight,
}
use tron_rs.Actuators.{
  ActuatorError, invalid_address, owner_account_missing, parse_address, need_account, try,
}
use tron_rs.Actuators
use tron_rs.Actuators.Outcomes.{OnOk, try_then, OnOk-true, need_account_found, OnOk-given}
use tron_rs.Actuators.Stake.{add_weight, total_weight_key, trx_precision}
use tron_rs.Actuators.Stake.Freeze.{freeze, FreezeBalanceV2Contract, execute}
use tron_rs.Actuators.Stake.Unfreeze.{unfreeze, UnfreezeBalanceV2Contract, unfreeze_delay_ms}
use tron_rs.Actuators.Stake.Expire.{withdraw, WithdrawExpireUnfreezeContract}
use tron_rs.Actuators.Stake.Cancel.{
  settled, restore_weight, CancelAllUnfreezeV2Contract, Cancelled, cancel_each, start,
  restore_weights,
}
use tron_rs.Actuators.Stake.Freeze
use tron_rs.Actuators.Stake.Unfreeze
use tron_rs.Actuators.Stake.Expire
use tron_rs.Actuators.Stake.Cancel
use tron_rs.Actuators.Stake.Wealth.{Moved, wealth, IsStake, freeze-Moved, unfreeze-Moved}
use tron_rs.Actuators.Stake.Released.{withdraw-Moved, cancel-Moved}

-- The account at an address is well formed and owns so much.
pub record Owns (addr : Bytes) (owned : ℤ) (w : World) : Type 0 where
  pub account : Account
  pub stored : get_account w addr ≡ ok (some account)
  pub stake : IsStake account
  pub same : wealth account ≡ owned

-- Another world with the same accounts.
same_accounts :
    (addr : Bytes) (owned : ℤ) (w w' : World)
    → w'.accounts ≡ w.accounts
    → Owns addr owned w
    → Owns addr owned w'
unfolding get_account
same_accounts addr owned w w' e h = record {
  account = h.account;
  stored = ap (λ f. read_cell (f addr)) e ∙ h.stored;
  stake = h.stake;
  same = h.same;
}

found_is :
    (r : Result StateError (Option Account)) (a b : Account)
    → r ≡ ok (some a)
    → r ≡ ok (some b)
    → a ≡ b
found_is r a b e f = ground arith

-- A contract stores what is left of its owner's account.
put-Moved :
    (addr owner : Bytes) (owned : ℤ) (w : World) (account account' : Account)
    → get_account w owner ≡ ok (some account)
    → (IsStake account → Moved account account')
    → Owns addr owned w
    → Owns addr owned (put_account owner account' w)
unfolding get_account put_account
put-Moved addr owner owned w account account' found move h =
    elim (Bool-cases (bytes_eq owner addr)) [
      | inl e ↦
          let here =
            subst (λ a. get_account w a ≡ ok (some account)) ((bytes_eq_iff owner addr).0 e)
              found in
          let same = found_is (get_account w addr) h.account account h.stored here in
          let m = move (subst IsStake same h.stake) in
          record {
            account = account';
            stored = rw e refl;
            stake = m.stake;
            same = m.same ∙ ap wealth (sym same) ∙ h.same;
          }
      | inr e ↦ record {
        account = h.account;
        stored = rw e h.stored;
        stake = h.stake;
        same = h.same;
      }
    ]

accounts-add_weight :
    (resource delta : ℤ) (w : World) → (add_weight resource delta w).accounts ≡ w.accounts
unfolding add_weight add_prop_i64 put_prop_i64
accounts-add_weight resource delta w = go (total_weight_key resource)
  where
    go :
        (k : Option PropKey)
        → (elim k as (λ _. World) [ none ↦ w | some key ↦ add_prop_i64 key delta w ]).accounts
          ≡ w.accounts
    go none = refl
    go (some key) = refl

accounts-restore_weight :
    (key : PropKey) (amount : ℤ) (w : World) → (restore_weight key amount w).accounts ≡ w.accounts
unfolding restore_weight add_prop_i64 put_prop_i64
accounts-restore_weight key amount w = elim (Bool-cases (eqb_ℤ amount (pos 0))) [
  | inl e ↦ rw e refl
  | inr e ↦ rw e refl
]

accounts-restore_weights : (s : Cancelled) (w : World) → (restore_weights s w).accounts ≡ w.accounts
unfolding restore_weights
accounts-restore_weights s w =
    let w₁ = restore_weight total_net_weight s.net_refrozen w in
    let w₂ = restore_weight total_energy_weight s.energy_refrozen w₁ in
    accounts-restore_weight total_tron_power_weight s.power_refrozen w₂
    ∙ accounts-restore_weight total_energy_weight s.energy_refrozen w₁
    ∙ accounts-restore_weight total_net_weight s.net_refrozen w

module _ (addr : Bytes) (owned : ℤ) (w : World) (h : Owns addr owned w) where
  -- The shape that the four contracts share: the owner's account is changed, and then nothing in the
  -- accounts.
  stake-Owns :
      (bytes : Bytes) (op : Account → Result ActuatorError Account)
      (after : Account → World → World)
      → ((account : Account) → IsStake account → OnOk (Moved account) (op account))
      → ((account : Account) (v : World) → (after account v).accounts ≡ v.accounts)
      → Owns addr owned
          (try w (parse_address bytes invalid_address) λ owner.
            try w (need_account w owner (Actuators.execute owner_account_missing)) λ account.
              try w
                (op account)
                λ account'. (after account (put_account owner account' w), ok (pos 0))).0
  stake-Owns bytes op after move still =
      try_then (Owns addr owned) _ w (parse_address bytes invalid_address) _ h (OnOk-true _)
        λ owner _.
          try_then (Owns addr owned) _ w
            (need_account w owner (Actuators.execute owner_account_missing)) _ h
            (need_account_found w owner _)
            λ account found.
              try_then (Owns addr owned) _ w (op account) _ h
                (OnOk-given (Moved account) (op account) (move account))
                λ account' m.
                  same_accounts addr owned (put_account owner account' w)
                    (after account (put_account owner account' w)) (still account _)
                    (put-Moved addr owner owned w account account' found m h)

  pub freeze-Owns :
      (c : FreezeBalanceV2Contract)
      → pos 0 ≤ℤ c.frozen_balance
      → Owns addr owned (Freeze.execute w c).0
  unfolding Freeze.execute
  freeze-Owns c positive =
      stake-Owns c.owner_address (λ account. freeze account c.resource c.frozen_balance)
        (λ account. add_weight c.resource (quot_ℤ c.frozen_balance trx_precision))
        (λ account stake. freeze-Moved account c.resource c.frozen_balance stake positive)
        (λ account. accounts-add_weight c.resource (quot_ℤ c.frozen_balance trx_precision))

  pub unfreeze-Owns :
      (c : UnfreezeBalanceV2Contract)
      → pos 0 ≤ℤ c.unfreeze_balance
      → Owns addr owned (Unfreeze.execute w c).0
  unfolding Unfreeze.execute
  unfreeze-Owns c positive =
      let delta = pos 0 -ℤ quot_ℤ c.unfreeze_balance trx_precision in
      let now = get_prop_i64 w latest_timestamp in
      stake-Owns c.owner_address
        (λ account. unfreeze account c.resource c.unfreeze_balance (unfreeze_delay_ms w) now)
        (λ account. add_weight c.resource delta)
        (λ account stake.
          unfreeze-Moved account c.resource c.unfreeze_balance (unfreeze_delay_ms w) now stake
            positive)
        (λ account. accounts-add_weight c.resource delta)

  pub withdraw-Owns : (c : WithdrawExpireUnfreezeContract) → Owns addr owned (Expire.execute w c).0
  unfolding Expire.execute
  withdraw-Owns c =
      let now = get_prop_i64 w latest_timestamp in
      stake-Owns c.owner_address (λ account. withdraw account now) (λ account v. v)
        (λ account. withdraw-Moved account now) (λ account v. refl)

  pub cancel-Owns : (c : CancelAllUnfreezeV2Contract) → Owns addr owned (Cancel.execute w c).0
  unfolding Cancel.execute
  cancel-Owns c =
      let now = get_prop_i64 w latest_timestamp in
      let s : Account → Cancelled =
        λ account. cancel_each now account.unfrozen_v2 (start account) in
      stake-Owns c.owner_address (λ account. settled account (s account))
        (λ account. restore_weights (s account)) (λ account. cancel-Moved account now)
        (λ account. accounts-restore_weights (s account))
