-- ===== src/Actuators/Stake/Wealth.antt =====
-- What an account owns in the contracts of crates/actuators/src/freeze_v2.rs, withdraw_unfreeze.rs and
-- cancel_unfreeze.rs, and how each of them moves it.
use tron_rs.Prelude.{
  Bool-cases, All, All-append, ℤ, pos, ◌+ℤ◌, ◌-ℤ◌, ◌≤ℤ◌, leb_ℤ, eqb_ℤ, int_laws, leb_ℤ→le, i64_max,
  in_i64, Result, ◌≡◌, refl, inl, inr, List, [], ◌∷◌, ◌++◌, arith,
}
use tron_rs.Actuators.Outcomes.{OnOk, OnOk-then, OnOk-bind}
use tron_rs.Actuators.{
  debit, credit, Reason, balance_not_sufficient, frozen_not_sufficient, ActuatorError,
}
use tron_rs.State.World.{FreezeV2, UnfreezeV2, Account}
use tron_rs.Actuators.Stake.Freeze.{freeze, add_frozen}
use tron_rs.Actuators.Stake.Unfreeze.{unfreeze, take_frozen}

abbrev pub frozen_sum : List FreezeV2 → ℤ
frozen_sum [] = pos 0
frozen_sum (f ∷ frozen) = f.amount +ℤ frozen_sum frozen

abbrev pub unfrozen_sum : List UnfreezeV2 → ℤ
unfrozen_sum [] = pos 0
unfrozen_sum (u ∷ unfrozen) = u.unfreeze_amount +ℤ unfrozen_sum unfrozen

-- The balance, what is frozen, and what is being unfrozen.
abbrev pub wealth : Account → ℤ
wealth account =
    account.balance +ℤ (frozen_sum account.frozen_v2 +ℤ unfrozen_sum account.unfrozen_v2)

-- Nothing is negative, and all of it together fits an i64.
pub record IsStake (account : Account) : Type 0 where
  pub balance : pos 0 ≤ℤ account.balance
  pub frozen : All (λ f. pos 0 ≤ℤ f.amount) account.frozen_v2
  pub unfrozen : All (λ u. pos 0 ≤ℤ u.unfreeze_amount) account.unfrozen_v2
  pub fits : wealth account ≤ℤ i64_max

pub frozen_sum_nonneg :
    (frozen : List FreezeV2) → All (λ f. pos 0 ≤ℤ f.amount) frozen → pos 0 ≤ℤ frozen_sum frozen
frozen_sum_nonneg [] h = omega arith
frozen_sum_nonneg (f ∷ frozen) h = omega (int_laws, frozen_sum_nonneg frozen h.1, h.0)

pub unfrozen_sum_nonneg :
    (unfrozen : List UnfreezeV2)
    → All (λ u. pos 0 ≤ℤ u.unfreeze_amount) unfrozen
    → pos 0 ≤ℤ unfrozen_sum unfrozen
unfrozen_sum_nonneg [] h = omega arith
unfrozen_sum_nonneg (u ∷ unfrozen) h = omega (int_laws, unfrozen_sum_nonneg unfrozen h.1, h.0)

-- What a contract leaves to an account: as much as it had, and well formed.
pub record Moved (account account' : Account) : Type 0 where
  pub same : wealth account' ≡ wealth account
  pub stake : IsStake account'

pub debit_gives :
    (balance amount : ℤ) (reason : Reason)
    → OnOk (λ left. (left ≡ balance -ℤ amount) × (pos 0 ≤ℤ left)) (debit balance amount reason)
unfolding debit
debit_gives balance amount reason = elim (Bool-cases (in_i64 (balance -ℤ amount))) [
  | inl e ↦ elim (Bool-cases (leb_ℤ (pos 0) (balance -ℤ amount))) [
    | inl le ↦ rw (debit, e, le) (refl, leb_ℤ→le (pos 0) (balance -ℤ amount) le)
    | inr gt ↦ rw (debit, e, gt) tt
  ]
  | inr e ↦ rw (debit, e) tt
]

pub credit_gives :
    (balance amount : ℤ) → OnOk (λ total. total ≡ balance +ℤ amount) (credit balance amount)
unfolding credit
credit_gives balance amount = elim (Bool-cases (in_i64 (balance +ℤ amount))) [
  | inl e ↦ rw e refl
  | inr e ↦ rw e tt
]

-- The entries add up to the amount, and none is negative.
abbrev Adds : ℤ → List FreezeV2 → Type 0
Adds total frozen = (frozen_sum frozen ≡ total) × All (λ f. pos 0 ≤ℤ f.amount) frozen

add_frozen-Adds :
    (frozen : List FreezeV2) (resource amount : ℤ)
    → pos 0 ≤ℤ amount
    → All (λ f. pos 0 ≤ℤ f.amount) frozen
    → OnOk (Adds (frozen_sum frozen +ℤ amount)) (add_frozen frozen resource amount)
unfolding add_frozen
add_frozen-Adds [] resource amount h hs = ((omega int_laws), (h, tt))
add_frozen-Adds (f ∷ frozen) resource amount h hs = elim (Bool-cases (eqb_ℤ f.resource resource)) [
  | inl e ↦ rw e (
      OnOk-then _ _ (credit f.amount amount) _ (credit_gives f.amount amount)
        λ more g. (rw g (omega int_laws), (rw g (omega (int_laws, hs.0)), hs.1)))
  | inr e ↦ rw e (
      OnOk-then _ _ (add_frozen frozen resource amount) _
        (add_frozen-Adds frozen resource amount h hs.1)
        λ more g. (rw g.0 (omega int_laws), (hs.0, g.1)))
]

take_frozen-Adds :
    (frozen : List FreezeV2) (resource amount : ℤ)
    → All (λ f. pos 0 ≤ℤ f.amount) frozen
    → OnOk (Adds (frozen_sum frozen -ℤ amount)) (take_frozen frozen resource amount)
unfolding take_frozen
take_frozen-Adds [] resource amount hs = tt
take_frozen-Adds (f ∷ frozen) resource amount hs = elim (Bool-cases (eqb_ℤ f.resource resource)) [
  | inl e ↦ rw e (
      OnOk-then _ _ (debit f.amount amount frozen_not_sufficient) _
        (debit_gives f.amount amount frozen_not_sufficient)
        λ less g. (rw g.0 (omega int_laws), (g.1, hs.1)))
  | inr e ↦ rw e (
      OnOk-then _ _ (take_frozen frozen resource amount) _
        (take_frozen-Adds frozen resource amount hs.1)
        λ less g. (rw g.0 (omega int_laws), (hs.0, g.1)))
]

-- An account that owns as much as before is as well formed.
pub moved :
    (account account' : Account)
    → IsStake account
    → wealth account' ≡ wealth account
    → pos 0 ≤ℤ account'.balance
    → All (λ f. pos 0 ≤ℤ f.amount) account'.frozen_v2
    → All (λ u. pos 0 ≤ℤ u.unfreeze_amount) account'.unfrozen_v2
    → Moved account account'
moved account account' h e b f u = record {
  same = e;
  stake = record { balance = b; frozen = f; unfrozen = u; fits = rw e h.fits };
}

pub freeze-Moved :
    (account : Account) (resource amount : ℤ)
    → IsStake account
    → pos 0 ≤ℤ amount
    → OnOk (Moved account) (freeze account resource amount)
unfolding freeze
freeze-Moved account resource amount h a =
    OnOk-then _ _ (debit account.balance amount balance_not_sufficient) _
      (debit_gives account.balance amount balance_not_sufficient)
      λ left l.
        OnOk-then _ _ (add_frozen account.frozen_v2 resource amount) _
          (add_frozen-Adds account.frozen_v2 resource amount a h.frozen)
          λ frozen g.
            moved account (record account { balance = left; frozen_v2 = frozen }) h
              (rw (l.0, g.0) (omega int_laws)) l.1 g.1 h.unfrozen

unfrozen_sum-append :
    (us vs : List UnfreezeV2) → unfrozen_sum (us ++ vs) ≡ unfrozen_sum us +ℤ unfrozen_sum vs
unfrozen_sum-append [] vs = omega int_laws
unfrozen_sum-append (u ∷ us) vs = rw (unfrozen_sum-append us vs) (omega int_laws)

pub unfreeze-Moved :
    (account : Account) (resource amount : ℤ) (delay : Result ActuatorError ℤ) (now : ℤ)
    → IsStake account
    → pos 0 ≤ℤ amount
    → OnOk (Moved account) (unfreeze account resource amount delay now)
unfolding unfreeze
unfreeze-Moved account resource amount delay now h a =
    OnOk-then _ _ (take_frozen account.frozen_v2 resource amount) _
      (take_frozen-Adds account.frozen_v2 resource amount h.frozen)
      λ frozen g. OnOk-bind _ delay _ λ ms. OnOk-bind _ (credit now ms) _ λ expire_time.
        let entry : List UnfreezeV2 =
          (record {
            resource = resource;
            unfreeze_amount = amount;
            unfreeze_expire_time = expire_time;
          })
          ∷ [] in
        moved account
          (record account { frozen_v2 = frozen; unfrozen_v2 = account.unfrozen_v2 ++ entry }) h
          (rw (g.0, unfrozen_sum-append account.unfrozen_v2 entry) (omega int_laws)) h.balance g.1
          (All-append _ account.unfrozen_v2 entry h.unfrozen (a, tt))
