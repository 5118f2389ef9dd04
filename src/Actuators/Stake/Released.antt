-- ===== src/Actuators/Stake/Released.antt =====
-- What `execute` of crates/actuators/src/withdraw_unfreeze.rs and of cancel_unfreeze.rs leaves to an
-- account.
use tron_rs.Prelude.{
  Bool-cases, keep_if, All, All-keep_if, ℤ, pos, ◌+ℤ◌, ◌≤ℤ◌, eqb_ℤ, int_laws, i64_max, add_i64,
  add_i64-in, ◌≡◌, sym, ap, ◌∙◌, inl, inr, not, List, [], ◌∷◌, arith,
}
use tron_rs.Actuators.{credit}
use tron_rs.Actuators.Outcomes.{OnOk, OnOk-then}
use tron_rs.State.World.{FreezeV2, UnfreezeV2, Account}
use tron_rs.Actuators.Stake.Expire.{withdraw, is_matured, matured_sum}
use tron_rs.Actuators.Stake.Cancel.{Cancelled, refreeze, cancel_one, cancel_each, start, settled}
use tron_rs.Actuators.Stake.Wealth.{
  Moved, frozen_sum, unfrozen_sum, IsStake, frozen_sum_nonneg, unfrozen_sum_nonneg, credit_gives,
  moved,
}

abbrev Nonneg : List UnfreezeV2 → Type 0
Nonneg = All (λ u. pos 0 ≤ℤ u.unfreeze_amount)

abbrev left_of : ℤ → List UnfreezeV2 → List UnfreezeV2
left_of now = keep_if (λ u. not (is_matured now u))

le_of_eq : (a b : ℤ) → a ≡ b → (a ≤ℤ b) × (b ≤ℤ a)
le_of_eq a b e = (rw e (omega arith), rw e (omega arith))

assoc : (a m l : ℤ) → (a +ℤ m) +ℤ l ≡ a +ℤ (m +ℤ l)
assoc a m l = omega int_laws

swap : (m a l : ℤ) → m +ℤ (a +ℤ l) ≡ a +ℤ (m +ℤ l)
swap m a l = omega int_laws

-- What has matured and what is left are all there was.
matured_sum_splits :
    (now : ℤ) (us : List UnfreezeV2)
    → Nonneg us
    → unfrozen_sum us ≤ℤ i64_max
    → (matured_sum now us +ℤ unfrozen_sum (left_of now us) ≡ unfrozen_sum us)
      × (pos 0 ≤ℤ matured_sum now us)
unfolding matured_sum
matured_sum_splits now [] h fits = ((omega int_laws), omega arith)
matured_sum_splits now (u ∷ us) h fits =
    let rest = matured_sum_splits now us h.1 (omega (int_laws, h.0)) in
    let m = matured_sum now us in
    let l = unfrozen_sum (left_of now us) in
    let left =
      unfrozen_sum_nonneg (left_of now us) (All-keep_if _ (λ v. not (is_matured now v)) us h.1) in
    let same = le_of_eq (m +ℤ l) (unfrozen_sum us) rest.0 in
    elim (Bool-cases (is_matured now u)) [
      | inl e ↦
          let added : add_i64 u.unfreeze_amount m ≡ u.unfreeze_amount +ℤ m =
            add_i64-in u.unfreeze_amount m (
              omega (int_laws, h.0, same.0, left, rest.1),
              omega (int_laws, h.0, same.0, left, rest.1, fits),
            ) in
          rw (e, added)
            (
              assoc u.unfreeze_amount m l ∙ ap (λ x. u.unfreeze_amount +ℤ x) rest.0,
              omega (int_laws, h.0, rest.1),
            )
      | inr e ↦ rw e (swap m u.unfreeze_amount l ∙ ap (λ x. u.unfreeze_amount +ℤ x) rest.0, rest.1)
    ]

pub withdraw-Moved :
    (account : Account) (now : ℤ) → IsStake account → OnOk (Moved account) (withdraw account now)
unfolding withdraw
withdraw-Moved account now h =
    let us = account.unfrozen_v2 in
    let fs = frozen_sum_nonneg account.frozen_v2 h.frozen in
    let ls = unfrozen_sum_nonneg us h.unfrozen in
    let (splits, nonneg) =
      matured_sum_splits now us h.unfrozen (omega (int_laws, h.fits, h.balance)) in
    OnOk-then _ _ (credit account.balance (matured_sum now us)) _
      (credit_gives account.balance (matured_sum now us))
      λ total t.
        moved account (record account { balance = total; unfrozen_v2 = left_of now us }) h
          (rw t (rw (sym splits) (omega int_laws))) (rw t (omega (int_laws, h.balance, nonneg)))
          h.frozen (All-keep_if _ (λ v. not (is_matured now v)) us h.unfrozen)

refreeze_adds :
    (frozen : List FreezeV2) (resource amount : ℤ)
    → pos 0 ≤ℤ amount
    → All (λ f. pos 0 ≤ℤ f.amount) frozen
    → frozen_sum frozen +ℤ amount ≤ℤ i64_max
    → (frozen_sum (refreeze frozen resource amount) ≡ frozen_sum frozen +ℤ amount)
      × All (λ f. pos 0 ≤ℤ f.amount) (refreeze frozen resource amount)
unfolding refreeze
refreeze_adds [] resource amount h hs fits = ((omega int_laws), (h, tt))
refreeze_adds (f ∷ frozen) resource amount h hs fits =
    let others = frozen_sum_nonneg frozen hs.1 in
    elim (Bool-cases (eqb_ℤ f.resource resource)) [
      | inl e ↦
          let added : add_i64 f.amount amount ≡ f.amount +ℤ amount =
            add_i64-in f.amount amount (omega (int_laws, hs.0)) in
          rw (e, added) ((omega int_laws), (omega (int_laws, hs.0), hs.1))
      | inr e ↦
          let (sum, all) = refreeze_adds frozen resource amount h hs.1 (omega (int_laws, hs.0)) in
          rw (e, sum) ((omega int_laws), (hs.0, all))
    ]

-- In the loop, with `us` still to come: nothing is negative, and all of it together is `total`.
record Loop (total : ℤ) (us : List UnfreezeV2) (s : Cancelled) : Type 0 where
  withdraw : pos 0 ≤ℤ s.withdraw
  frozen : All (λ f. pos 0 ≤ℤ f.amount) s.frozen
  ahead : Nonneg us
  sum : s.withdraw +ℤ (frozen_sum s.frozen +ℤ unfrozen_sum us) ≡ total

regroup_withdraw : (w a f r : ℤ) → (w +ℤ a) +ℤ (f +ℤ r) ≡ w +ℤ (f +ℤ (a +ℤ r))
regroup_withdraw w a f r = omega int_laws

regroup_frozen : (w a f r : ℤ) → w +ℤ ((f +ℤ a) +ℤ r) ≡ w +ℤ (f +ℤ (a +ℤ r))
regroup_frozen w a f r = omega int_laws

cancel_one-Loop :
    (now total : ℤ) (u : UnfreezeV2) (us : List UnfreezeV2) (s : Cancelled)
    → total ≤ℤ i64_max
    → Loop total (u ∷ us) s
    → Loop total us (cancel_one now u s)
unfolding cancel_one
cancel_one-Loop now total u us s fits h =
    let a = u.unfreeze_amount in
    let fs = frozen_sum_nonneg s.frozen h.frozen in
    let rs = unfrozen_sum_nonneg us h.ahead.1 in
    let same =
      le_of_eq (s.withdraw +ℤ (frozen_sum s.frozen +ℤ (a +ℤ unfrozen_sum us))) total h.sum in
    elim (Bool-cases (is_matured now u)) [
      | inl e ↦
          let added : add_i64 s.withdraw a ≡ s.withdraw +ℤ a = add_i64-in s.withdraw a (
            omega (int_laws, h.withdraw, h.ahead.0),
            omega (int_laws, h.withdraw, h.ahead.0, same.0),
          ) in
          rw (e, added)
            (record {
              withdraw = omega (int_laws, h.withdraw, h.ahead.0);
              frozen = h.frozen;
              ahead = h.ahead.1;
              sum = regroup_withdraw s.withdraw a (frozen_sum s.frozen) (unfrozen_sum us) ∙ h.sum;
            })
      | inr e ↦
          let (more, all) =
            refreeze_adds s.frozen u.resource a h.ahead.0 h.frozen
              (omega (int_laws, h.withdraw, same.0)) in
          rw e (record {
            withdraw = h.withdraw;
            frozen = all;
            ahead = h.ahead.1;
            sum =
                rw more
                  (regroup_frozen s.withdraw a (frozen_sum s.frozen) (unfrozen_sum us) ∙ h.sum);
          })
    ]

cancel_each-Loop :
    (now total : ℤ) (us : List UnfreezeV2) (s : Cancelled)
    → total ≤ℤ i64_max
    → Loop total us s
    → Loop total [] (cancel_each now us s)
unfolding cancel_each
cancel_each-Loop now total [] s fits h = h
cancel_each-Loop now total (u ∷ us) s fits h =
    cancel_each-Loop now total us (cancel_one now u s) fits
      (cancel_one-Loop now total u us s fits h)

settle_sum : (b w f t : ℤ) → w +ℤ (f +ℤ pos 0) ≡ t → (b +ℤ w) +ℤ (f +ℤ pos 0) ≡ b +ℤ t
settle_sum b w f t e = assoc b w (f +ℤ pos 0) ∙ ap (λ x. b +ℤ x) e

pub cancel-Moved :
    (account : Account) (now : ℤ)
    → IsStake account
    → OnOk (Moved account) (settled account (cancel_each now account.unfrozen_v2 (start account)))
unfolding settled
cancel-Moved account now h =
    let us = account.unfrozen_v2 in
    let s = cancel_each now us (start account) in
    let total = frozen_sum account.frozen_v2 +ℤ unfrozen_sum us in
    let loop =
      cancel_each-Loop now total us (start account) (omega (int_laws, h.fits, h.balance)) (record {
        withdraw = omega arith;
        frozen = h.frozen;
        ahead = h.unfrozen;
        sum = omega int_laws;
      }) in
    OnOk-then _ _ (credit account.balance s.withdraw) _ (credit_gives account.balance s.withdraw)
      λ balance t.
        moved account (record account { balance = balance; frozen_v2 = s.frozen; unfrozen_v2 = [] })
          h (rw t (settle_sum account.balance s.withdraw (frozen_sum s.frozen) total loop.sum))
          (rw t (omega (int_laws, h.balance, loop.withdraw))) loop.frozen tt
