-- ===== src/Actuators/Vote/Power.antt =====
-- What `validate` of crates/actuators/src/vote.rs ensures for `execute`.
use mathlib.Core.Path.{subst}
use tron_rs.Prelude.{
  ltb, ◌==◌, Bool-cases, length, All, Bytes, ℤ, pos, ◌+ℤ◌, ◌*ℤ◌, ◌≤ℤ◌, ◌<ℤ◌, ltb_ℤ, leb_ℤ, int_laws,
  ltb_ℤ→ge, checked, saturating, Result, ok, fail_if, ok_or, ◌≡◌, refl, sym, ap, ◌∙◌, ◌⊎◌, inl, inr,
  Bool, true, false, ◌&&◌, not, some, List, [], ◌∷◌, arith,
}
use tron_rs.State.World.{World, Account, get_account, put_account, witness_exists, FreezeV2}
use tron_rs.Actuators.{
  ActuatorError, long_overflow, invalid_vote_address, vote_not_positive, witness_not_exists,
  parse_address, invalid_address, account_not_exists, no_votes, too_many_votes, votes_over_power,
  need_account, owner_account_missing,
}
use tron_rs.Actuators
use tron_rs.Actuators.Outcomes.{
  OnOk, OnOk-then, parse_address-same, OnOk-at, Ensures, given-Ensures, bind-Ensures, fail_if-ok,
  need_account-known, checked-same, fail_if-false, OnOk-map,
}
use tron_rs.Actuators.Vote.{
  validate, execute, check_votes, max_vote_number, vote_precision, VoteWitnessContract,
  tron_power_sun, add_frozen_amounts,
}
use tron_rs.Actuators.Vote

abbrev pub vote_sum : List (Bytes × ℤ) → ℤ
vote_sum [] = pos 0
vote_sum (vote ∷ votes) = vote.1 +ℤ vote_sum votes

-- Each count is above 0 and for a witness.
abbrev pub Eligible : World → List (Bytes × ℤ) → Type 0
Eligible w = All (λ vote. (pos 0 <ℤ vote.1) × (witness_exists w vote.0 ≡ true))

-- What is frozen, as an exact sum, and whether no entry is negative.
abbrev pub frozen_sum : List FreezeV2 → ℤ
frozen_sum [] = pos 0
frozen_sum (f ∷ frozen) = f.amount +ℤ frozen_sum frozen

abbrev pub none_negative : List FreezeV2 → Bool
none_negative [] = true
none_negative (f ∷ frozen) = leb_ℤ (pos 0) f.amount && none_negative frozen

saturating-le : (a : ℤ) → pos 0 ≤ℤ a → (saturating a ≤ℤ a) × (pos 0 ≤ℤ saturating a)
saturating-le a low = (ground arith, ground arith)

add_frozen_amounts-le :
    (acc : ℤ) (frozen : List FreezeV2)
    → pos 0 ≤ℤ acc
    → none_negative frozen ≡ true
    → add_frozen_amounts acc frozen ≤ℤ acc +ℤ frozen_sum frozen
unfolding add_frozen_amounts
add_frozen_amounts-le acc [] low h = omega int_laws
add_frozen_amounts-le acc (f ∷ frozen) low h =
    let positive : pos 0 ≤ℤ f.amount = ground arith in
    let added : pos 0 ≤ℤ acc +ℤ f.amount = omega int_laws in
    let (small, low') = saturating-le (acc +ℤ f.amount) added in
    let rest = add_frozen_amounts-le (saturating (acc +ℤ f.amount)) frozen low' (ground arith) in
    omega (int_laws, small, rest)

-- An account's power is no more than what it has frozen.
tron_power_sun-le :
    (account : Account)
    → (none_negative account.frozen_v2 ≡ false)
      ⊎ (tron_power_sun account ≤ℤ frozen_sum account.frozen_v2)
unfolding tron_power_sun
tron_power_sun-le account = elim (Bool-cases (none_negative account.frozen_v2)) [
  | inl fine ↦
      let le = add_frozen_amounts-le (pos 0) account.frozen_v2 (omega arith) fine in
      inr (omega (int_laws, le))
  | inr negative ↦ inl negative
]

within_frozen :
    (account : Account) (a : ℤ)
    → a ≤ℤ tron_power_sun account
    → (none_negative account.frozen_v2 ≡ false) ⊎ (a ≤ℤ frozen_sum account.frozen_v2)
within_frozen account a le = elim (tron_power_sun-le account) [
  | inl negative ↦ inl negative
  | inr most ↦ inr (omega (arith, le, most))
]

total_of : (sum x rest : ℤ) → (sum +ℤ x) +ℤ rest ≡ sum +ℤ (x +ℤ rest)
total_of sum x rest = omega int_laws

check_votes-Eligible :
    (w : World) (votes : List (Bytes × ℤ)) (sum : ℤ)
    → OnOk (λ total. (total ≡ sum +ℤ vote_sum votes) × Eligible w votes) (check_votes w votes sum)
unfolding check_votes
check_votes-Eligible w [] sum = ((omega int_laws), tt)
check_votes-Eligible w (vote ∷ votes) sum =
    OnOk-then _ _ (parse_address vote.0 invalid_vote_address) _
      (parse_address-same vote.0 invalid_vote_address)
      λ witness same.
        OnOk-then _ _ (fail_if (leb_ℤ vote.1 (pos 0)) (Actuators.validate vote_not_positive)) _
          (fail_if-false _ _)
          λ _ positive.
            OnOk-then _ _
              (fail_if (not (witness_exists w witness)) (Actuators.validate witness_not_exists)) _
              (fail_if-false _ _)
              λ _ exists.
                OnOk-then _ _ (ok_or (checked (sum +ℤ vote.1)) (Actuators.validate long_overflow)) _
                  (checked-same (sum +ℤ vote.1) (Actuators.validate long_overflow))
                  λ more m.
                    OnOk-map _ _ (check_votes w votes more) (check_votes-Eligible w votes more)
                      λ total t. (
                        t.0
                            ∙ ap (λ x. x +ℤ vote_sum votes) m
                            ∙ total_of sum vote.1 (vote_sum votes),
                        ((ground arith, ap (witness_exists w) (sym same) ∙ ground arith), t.1),
                      )

-- What a validated vote has checked, for the owner's account as it stands.
record Checked (w : World) (c : VoteWitnessContract) (account : Account) : Type 0 where
  owner : parse_address c.owner_address invalid_address ≡ ok c.owner_address
  votes : Eligible w c.votes
  power : vote_sum c.votes *ℤ vote_precision ≤ℤ tron_power_sun account

ok_is : (r : Result ActuatorError Account) (a b : Account) → r ≡ ok a → r ≡ ok b → a ≡ b
ok_is r a b e f = ground arith

fits :
    (sum total scaled : ℤ) (acc account : Account)
    → scaled ≡ sum *ℤ vote_precision
    → sum ≡ pos 0 +ℤ total
    → acc ≡ account
    → scaled ≤ℤ tron_power_sun acc
    → total *ℤ vote_precision ≤ℤ tron_power_sun account
fits sum total scaled acc account s t a le =
    let zero_add : pos 0 +ℤ total ≡ total = omega int_laws in
    subst (λ x. total *ℤ vote_precision ≤ℤ tron_power_sun x) a
      (subst (λ x. x *ℤ vote_precision ≤ℤ tron_power_sun acc) (t ∙ zero_add)
        (subst (λ x. x ≤ℤ tron_power_sun acc) s le))

validate-Checked :
    (w : World) (c : VoteWitnessContract) (account : Account)
    → get_account w c.owner_address ≡ ok (some account)
    → Ensures (Checked w c account) (Vote.validate w c)
unfolding Vote.validate
validate-Checked w c account found =
    bind-Ensures (parse_address c.owner_address invalid_address) _ λ owner e₁.
      let same =
        OnOk-at _ (parse_address c.owner_address invalid_address) owner
          (parse_address-same c.owner_address invalid_address) e₁ in
      bind-Ensures (fail_if (length c.votes == 0) (Actuators.validate no_votes)) _ λ _ _.
        bind-Ensures
          (fail_if (ltb max_vote_number (length c.votes)) (Actuators.validate too_many_votes)) _
          λ _ _. bind-Ensures (check_votes w c.votes (pos 0)) _ λ sum e₂.
            let counted =
              OnOk-at _ (check_votes w c.votes (pos 0)) sum (check_votes-Eligible w c.votes (pos 0))
                e₂ in
            bind-Ensures (need_account w owner (Actuators.validate account_not_exists)) _ λ acc e₃.
              bind-Ensures
                (ok_or (checked (sum *ℤ vote_precision)) (Actuators.validate long_overflow)) _
                λ scaled e₄.
                  let s =
                    OnOk-at _
                      (ok_or (checked (sum *ℤ vote_precision)) (Actuators.validate long_overflow))
                      scaled
                      (checked-same (sum *ℤ vote_precision) (Actuators.validate long_overflow))
                      e₄ in
                  bind-Ensures
                    (fail_if (ltb_ℤ (tron_power_sun acc) scaled)
                      (Actuators.validate votes_over_power))
                    _
                    λ t e₅.
                      let within =
                        fail_if-ok (ltb_ℤ (tron_power_sun acc) scaled)
                          (Actuators.validate votes_over_power) t e₅ in
                      let known =
                        need_account-known w c.owner_address account
                          (Actuators.validate account_not_exists) found in
                      let read =
                        subst
                          (λ o. need_account w o (Actuators.validate account_not_exists) ≡ ok acc)
                          same e₃ in
                      let p =
                        fits sum (vote_sum c.votes) scaled acc account s counted.0
                          (ok_is _ acc account read known)
                          (ltb_ℤ→ge (tron_power_sun acc) scaled within) in
                      given-Ensures
                        (record { owner = e₁ ∙ ap ok same; votes = counted.1; power = p })

-- A vote that is validated against the owner's account is executed: the new votes replace the account's
-- old ones and nothing else changes, each is above 0 and for a witness, and together they take no more
-- than the account's power, which, unless an entry is negative, is no more than the sum of what the
-- account has frozen.
pub validated_vote_within_power :
    (w : World) (c : VoteWitnessContract) (account : Account) (r : ℤ)
    → get_account w c.owner_address ≡ ok (some account)
    → Vote.validate w c ≡ ok r
    → (Vote.execute w c
        ≡ (put_account c.owner_address (record account { votes = c.votes }) w, ok (pos 0)))
      × (Eligible w c.votes × (vote_sum c.votes *ℤ vote_precision ≤ℤ tron_power_sun account))
      × ((none_negative account.frozen_v2 ≡ false)
          ⊎ (vote_sum c.votes *ℤ vote_precision ≤ℤ frozen_sum account.frozen_v2))
unfolding Vote.execute
validated_vote_within_power w c account r found valid_run =
    let h = (validate-Checked w c account found).holds r valid_run in
    (
      rw
          (
            h.owner,
            need_account-known w c.owner_address account (Actuators.execute owner_account_missing)
                found,
          )
          refl,
      (h.votes, h.power),
      within_frozen account (vote_sum c.votes *ℤ vote_precision) h.power,
    )
