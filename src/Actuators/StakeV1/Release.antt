-- ===== src/Actuators/StakeV1/Release.antt =====
-- `UnfreezeBalanceActuator` of crates/actuators/src/freeze_v1.rs gives back what it takes out.
use mathlib.Core.Path.{subst}
use tron_rs.Prelude.{
  Bool-cases, keep_if, All-keep_if, ℤ, pos, ◌+ℤ◌, ◌≤ℤ◌, eqb_ℤ, int_laws, i64_max, ◌≡◌, refl, sym,
  ap, ◌∙◌, inl, inr, not, arith,
}
use tron_rs.State.World.{Account}
use tron_rs.Actuators.{credit}
use tron_rs.Actuators.Outcomes.{OnOk, OnOk-then}
use tron_rs.Actuators.Stake.{bandwidth, energy, tron_power}
use tron_rs.Actuators.Stake.Wealth.{credit_gives}
use tron_rs.Actuators.StakeV1.{sum_frozen, energy_frozen, amount_of}
use tron_rs.Actuators.StakeV1.Unfreeze.{unfreeze, is_due, release}
use tron_rs.Actuators.StakeV1.Whole.{
  frozen_total, IsWhole, Kept, frozen_total_nonneg, sum_frozen-exact, frozen_total-split,
}

due_moves : (b d r f x b' : ℤ) → d +ℤ r ≡ f → b' ≡ b +ℤ d → b' +ℤ (r +ℤ x) ≡ b +ℤ (f +ℤ x)
due_moves b d r f x b' p q = rw (q, ← p) (omega int_laws)

energy_back : (b f e t b' : ℤ) → b' ≡ b +ℤ e → b' +ℤ (f +ℤ (pos 0 +ℤ t)) ≡ b +ℤ (f +ℤ (e +ℤ t))
energy_back b f e t b' q = rw q (omega int_laws)

power_back : (b f e t b' : ℤ) → b' ≡ b +ℤ t → b' +ℤ (f +ℤ (e +ℤ pos 0)) ≡ b +ℤ (f +ℤ (e +ℤ t))
power_back b f e t b' q = rw q (omega int_laws)

nothing_back : (b x b' : ℤ) → b' ≡ b +ℤ pos 0 → b' +ℤ x ≡ b +ℤ x
nothing_back b x b' q = rw q (omega int_laws)

more : (b b' a : ℤ) → b' ≡ b +ℤ a → pos 0 ≤ℤ b → pos 0 ≤ℤ a → pos 0 ≤ℤ b'
more b b' a q h k = rw q (omega int_laws)

-- The due entries of an account, summed in range.
due_sum :
    (account : Account) (now : ℤ)
    → IsWhole account
    → sum_frozen (pos 0) (keep_if (is_due now) account.frozen)
      ≡ frozen_total (keep_if (is_due now) account.frozen)
due_sum account now h =
    let due = keep_if (is_due now) account.frozen in
    let rest = keep_if (λ f. not (is_due now f)) account.frozen in
    let due_good =
      All-keep_if (λ f. pos 0 ≤ℤ f.frozen_balance) (is_due now) account.frozen h.frozen in
    let rest_good =
      All-keep_if (λ f. pos 0 ≤ℤ f.frozen_balance) (λ f. not (is_due now f)) account.frozen
        h.frozen in
    let nonneg = frozen_total_nonneg rest rest_good in
    let whole_max : frozen_total due +ℤ frozen_total rest ≤ℤ i64_max =
      rw (frozen_total-split (is_due now) account.frozen)
        (omega (int_laws, h.balance, h.energy_min, h.power_min, h.fits)) in
    let e : pos 0 +ℤ frozen_total due ≡ frozen_total due = omega int_laws in
    sum_frozen-exact (pos 0) due (omega arith) due_good (omega (int_laws, nonneg, whole_max)) ∙ e

release-Kept :
    (account : Account) (resource now balance : ℤ)
    → IsWhole account
    → balance ≡ account.balance +ℤ (release account resource now).1
    → Kept account (record ((release account resource now).0) { balance = balance })
unfolding release energy_frozen
release-Kept account resource now balance h b = elim (Bool-cases (eqb_ℤ resource bandwidth)) [
  | inl r ↦
      let due = keep_if (is_due now) account.frozen in
      let due_good =
        All-keep_if (λ f. pos 0 ≤ℤ f.frozen_balance) (is_due now) account.frozen h.frozen in
      let q : balance ≡ account.balance +ℤ frozen_total due =
        b ∙ rw r (ap (λ v. account.balance +ℤ v) (due_sum account now h)) in
      let same =
        due_moves account.balance (frozen_total due) _ _ _ balance
          (frozen_total-split (is_due now) account.frozen) q in
      rw r (record {
        same = same;
        good = record {
          balance = more account.balance balance _ q h.balance (frozen_total_nonneg due due_good);
          frozen =
              All-keep_if (λ f. pos 0 ≤ℤ f.frozen_balance) (λ f. not (is_due now f)) account.frozen
                h.frozen;
          energy_min = h.energy_min;
          power_min = h.power_min;
          fits = subst (λ v. v ≤ℤ i64_max) (sym same) h.fits;
        };
      })
  | inr r ↦ elim (Bool-cases (eqb_ℤ resource energy)) [
    | inl e ↦
        let q : balance ≡ account.balance +ℤ amount_of (energy_frozen account) =
          b ∙ rw (r, e) refl in
        let same =
          energy_back account.balance (frozen_total account.frozen)
            (amount_of (energy_frozen account)) (amount_of account.tron_power) balance q in
        rw (r, e)
          (record {
            same = same;
            good = record {
              balance = more account.balance balance _ q h.balance h.energy_min;
              frozen = h.frozen;
              energy_min = omega arith;
              power_min = h.power_min;
              fits = subst (λ v. v ≤ℤ i64_max) (sym same) h.fits;
            };
          })
    | inr e ↦ elim (Bool-cases (eqb_ℤ resource tron_power)) [
      | inl t ↦
          let q : balance ≡ account.balance +ℤ amount_of account.tron_power =
            b ∙ rw (r, e, t) refl in
          let same =
            power_back account.balance (frozen_total account.frozen)
              (amount_of (energy_frozen account)) (amount_of account.tron_power) balance q in
          rw (r, e, t)
            (record {
              same = same;
              good = record {
                balance = more account.balance balance _ q h.balance h.power_min;
                frozen = h.frozen;
                energy_min = h.energy_min;
                power_min = omega arith;
                fits = subst (λ v. v ≤ℤ i64_max) (sym same) h.fits;
              };
            })
      | inr t ↦
          let q : balance ≡ account.balance +ℤ pos 0 = b ∙ rw (r, e, t) refl in
          let same = nothing_back account.balance _ balance q in
          rw (r, e, t)
            (record {
              same = same;
              good = record {
                balance = more account.balance balance (pos 0) q h.balance (omega arith);
                frozen = h.frozen;
                energy_min = h.energy_min;
                power_min = h.power_min;
                fits = subst (λ v. v ≤ℤ i64_max) (sym same) h.fits;
              };
            })
    ]
  ]
]

-- An unfreeze, when it succeeds, keeps what the account owns.
pub unfreeze-Kept :
    (account : Account) (resource now : ℤ)
    → IsWhole account
    → OnOk (Kept account) (unfreeze account resource now)
unfolding unfreeze
unfreeze-Kept account resource now h =
    OnOk-then _ _ (credit account.balance (release account resource now).1) _
      (credit_gives account.balance (release account resource now).1)
      λ balance b. release-Kept account resource now balance h b
