-- ===== src/Actuators/StakeV1/Whole.antt =====
-- What an account owns in the contracts of crates/actuators/src/freeze_v1.rs, and how each moves it.
use tron_rs.Prelude.{
  Bool-cases, keep_if, All, ℤ, pos, ◌+ℤ◌, ◌-ℤ◌, ◌≤ℤ◌, eqb_ℤ, int_laws, i64_max, add_i64, add_i64-in,
  ◌≡◌, refl, sym, ap, ◌∙◌, inl, inr, Bool, not, List, [], ◌∷◌, arith,
}
use tron_rs.State.World.{Frozen, Account}
use tron_rs.Actuators.{balance_not_sufficient, debit, credit}
use tron_rs.Actuators.Outcomes.{OnOk, OnOk-then}
use tron_rs.Actuators.Stake.{tron_power, energy}
use tron_rs.Actuators.Stake.Wealth.{debit_gives, credit_gives}
use tron_rs.Actuators.StakeV1
use mathlib.Core.Path.{subst}
use tron_rs.Actuators.Delegation.{resource_of}
use tron_rs.Actuators.StakeV1.{set_frozen, amount_of, sum_frozen, energy_frozen, frozen_balance}
use tron_rs.Actuators.StakeV1.Freeze.{freeze}

abbrev pub frozen_total : List Frozen → ℤ
frozen_total [] = pos 0
frozen_total (f ∷ frozen) = f.frozen_balance +ℤ frozen_total frozen

-- The balance, and what is frozen for each of the three resources.
abbrev pub whole : Account → ℤ
whole account =
    account.balance
    +ℤ (frozen_total account.frozen
        +ℤ (amount_of (energy_frozen account) +ℤ amount_of account.tron_power))

-- Nothing is negative, and all of it together fits an i64.
pub record IsWhole (account : Account) : Type 0 where
  pub balance : pos 0 ≤ℤ account.balance
  pub frozen : All (λ f. pos 0 ≤ℤ f.frozen_balance) account.frozen
  pub energy_min : pos 0 ≤ℤ amount_of (energy_frozen account)
  pub power_min : pos 0 ≤ℤ amount_of account.tron_power
  pub fits : whole account ≤ℤ i64_max

-- What a contract leaves to an account: as much as it had, and well formed.
pub record Kept (account account' : Account) : Type 0 where
  pub same : whole account' ≡ whole account
  pub good : IsWhole account'

pub frozen_total_nonneg :
    (frozen : List Frozen)
    → All (λ f. pos 0 ≤ℤ f.frozen_balance) frozen
    → pos 0 ≤ℤ frozen_total frozen
frozen_total_nonneg [] h = omega arith
frozen_total_nonneg (f ∷ frozen) h = omega (int_laws, frozen_total_nonneg frozen h.1, h.0)

-- In range, the sum that the code makes is the exact one.
pub sum_frozen-exact :
    (acc : ℤ) (frozen : List Frozen)
    → pos 0 ≤ℤ acc
    → All (λ f. pos 0 ≤ℤ f.frozen_balance) frozen
    → acc +ℤ frozen_total frozen ≤ℤ i64_max
    → sum_frozen acc frozen ≡ acc +ℤ frozen_total frozen
unfolding sum_frozen
sum_frozen-exact acc [] low h high = omega int_laws
sum_frozen-exact acc (f ∷ frozen) low h high =
    let rest = frozen_total_nonneg frozen h.1 in
    let step : add_i64 acc f.frozen_balance ≡ acc +ℤ f.frozen_balance =
      add_i64-in acc f.frozen_balance (omega (int_laws, low, h.0), omega (int_laws, high, rest)) in
    let same : (acc +ℤ f.frozen_balance) +ℤ frozen_total frozen
        ≡ acc +ℤ (f.frozen_balance +ℤ frozen_total frozen) =
      omega int_laws in
    rw step (
      sum_frozen-exact (acc +ℤ f.frozen_balance) frozen (omega (int_laws, low, h.0)) h.1
        (rw same high)
      ∙ same)

pub frozen_sum_is :
    (account : Account)
    → IsWhole account
    → sum_frozen (pos 0) account.frozen ≡ frozen_total account.frozen
frozen_sum_is account h =
    let e : pos 0 +ℤ frozen_total account.frozen ≡ frozen_total account.frozen = omega int_laws in
    let room : pos 0 +ℤ frozen_total account.frozen ≤ℤ i64_max =
      omega (int_laws, h.balance, h.energy_min, h.power_min, h.fits) in
    sum_frozen-exact (pos 0) account.frozen (omega arith) h.frozen room ∙ e

in_front : (b a c t : ℤ) → a +ℤ c ≡ t → (b +ℤ a) +ℤ c ≡ b +ℤ t
in_front b a c t e = rw⁻¹ e (omega int_laws)

in_middle : (b a c t : ℤ) → a +ℤ c ≡ t → a +ℤ (b +ℤ c) ≡ b +ℤ t
in_middle b a c t e = rw⁻¹ e (omega int_laws)

-- What is kept and what is taken out of a list add up to the list.
pub frozen_total-split :
    (p : Frozen → Bool) (frozen : List Frozen)
    → frozen_total (keep_if p frozen) +ℤ frozen_total (keep_if (λ f. not (p f)) frozen)
      ≡ frozen_total frozen
frozen_total-split p [] = omega int_laws
frozen_total-split p (f ∷ frozen) =
    let rest = frozen_total-split p frozen in
    elim (Bool-cases (p f)) [
      | inl e ↦ rw e (in_front f.frozen_balance _ _ _ rest)
      | inr e ↦ rw e (in_middle f.frozen_balance _ _ _ rest)
    ]

energy_moves :
    (b a f e t e' b' : ℤ)
    → e' ≡ e +ℤ a
    → b' ≡ b -ℤ a
    → b' +ℤ (f +ℤ (e' +ℤ t)) ≡ b +ℤ (f +ℤ (e +ℤ t))
energy_moves b a f e t e' b' p q = rw (p, q) (omega int_laws)

power_moves :
    (b a f e t t' b' : ℤ)
    → t' ≡ t +ℤ a
    → b' ≡ b -ℤ a
    → b' +ℤ (f +ℤ (e +ℤ t')) ≡ b +ℤ (f +ℤ (e +ℤ t))
power_moves b a f e t t' b' p q = rw (p, q) (omega int_laws)

bandwidth_moves :
    (b a f e t f' b' : ℤ)
    → f' ≡ f +ℤ a
    → b' ≡ b -ℤ a
    → b' +ℤ ((f' +ℤ pos 0) +ℤ (e +ℤ t)) ≡ b +ℤ (f +ℤ (e +ℤ t))
bandwidth_moves b a f e t f' b' p q = rw (p, q) (omega int_laws)

-- The new entry of a freeze is not negative.
grown : (x y a : ℤ) → x ≡ y +ℤ a → pos 0 ≤ℤ y → pos 0 ≤ℤ a → pos 0 ≤ℤ x
grown x y a e h k = rw e (omega int_laws)

set_frozen-Kept :
    (account : Account) (resource amount balance : ℤ) (entry : Frozen)
    → IsWhole account
    → pos 0 ≤ℤ amount
    → entry.frozen_balance ≡ StakeV1.frozen_balance account resource +ℤ amount
    → balance ≡ account.balance -ℤ amount
    → pos 0 ≤ℤ balance
    → Kept account (set_frozen (record account { balance = balance }) resource entry)
unfolding set_frozen energy_frozen StakeV1.frozen_balance resource_of
set_frozen-Kept account resource amount balance entry h nonneg e b low =
    elim (Bool-cases (eqb_ℤ resource energy)) [
      | inl r ↦
          let x : entry.frozen_balance ≡ amount_of (energy_frozen account) +ℤ amount =
            e ∙ rw r refl in
          let same =
            energy_moves account.balance amount (frozen_total account.frozen)
              (amount_of (energy_frozen account)) (amount_of account.tron_power)
              entry.frozen_balance balance x b in
          rw r (record {
            same = same;
            good = record {
              balance = low;
              frozen = h.frozen;
              energy_min = grown _ _ amount x h.energy_min nonneg;
              power_min = h.power_min;
              fits = subst (λ v. v ≤ℤ i64_max) (sym same) h.fits;
            };
          })
      | inr r ↦ elim (Bool-cases (eqb_ℤ resource tron_power)) [
        | inl s ↦
            let x : entry.frozen_balance ≡ amount_of account.tron_power +ℤ amount =
              e ∙ rw (r, s) refl in
            let same =
              power_moves account.balance amount (frozen_total account.frozen)
                (amount_of (energy_frozen account)) (amount_of account.tron_power)
                entry.frozen_balance balance x b in
            rw (r, s)
              (record {
                same = same;
                good = record {
                  balance = low;
                  frozen = h.frozen;
                  energy_min = h.energy_min;
                  power_min = grown _ _ amount x h.power_min nonneg;
                  fits = subst (λ v. v ≤ℤ i64_max) (sym same) h.fits;
                };
              })
        | inr s ↦
            let x : entry.frozen_balance ≡ frozen_total account.frozen +ℤ amount =
              e ∙ rw (r, s) (ap (λ v. v +ℤ amount) (frozen_sum_is account h)) in
            let same =
              bandwidth_moves account.balance amount (frozen_total account.frozen)
                (amount_of (energy_frozen account)) (amount_of account.tron_power)
                entry.frozen_balance balance x b in
            rw (r, s)
              (record {
                same = same;
                good = record {
                  balance = low;
                  frozen =
                      (grown _ _ amount x (frozen_total_nonneg account.frozen h.frozen) nonneg, tt);
                  energy_min = h.energy_min;
                  power_min = h.power_min;
                  fits = subst (λ v. v ≤ℤ i64_max) (sym same) h.fits;
                };
              })
      ]
    ]

-- A freeze, when it succeeds, keeps what the account owns.
pub freeze-Kept :
    (account : Account) (resource amount expire : ℤ)
    → IsWhole account
    → pos 0 ≤ℤ amount
    → OnOk (λ frozen. Kept account frozen.0) (freeze account resource amount expire)
unfolding freeze
freeze-Kept account resource amount expire h nonneg =
    OnOk-then _ _ (credit (StakeV1.frozen_balance account resource) amount) _
      (credit_gives (StakeV1.frozen_balance account resource) amount)
      λ new g.
        OnOk-then _ _ (debit account.balance amount balance_not_sufficient) _
          (debit_gives account.balance amount balance_not_sufficient)
          λ balance k.
            set_frozen-Kept account resource amount balance
              (record { frozen_balance = new; expire_time = expire }) h nonneg g k.0 k.1
