-- ===== src/Actuators/Candidate/Lifecycle.antt =====
-- A validated registration of crates/actuators/src/witness.rs is paid for once.
use mathlib.Core.Path.{subst}
use tron_rs.Prelude.{
  if◌then◌else◌, Bytes, bytes_eq, ℤ, pos, ◌+ℤ◌, ◌-ℤ◌, ◌≤ℤ◌, ◌<ℤ◌, int_laws, i64_max, ok, err, ◌≡◌,
  refl, sym, ◌∙◌, true, some, arith,
}
use tron_rs.Prelude.Endian.{bytes_eq_refl}
use tron_rs.State.World.{
  World, Account, Witness, get_account, put_account, put_prop_i64, burn_trx, burn_trx_amount,
  witness_exists, get_prop_i64,
}
use tron_rs.State.World.Laws.{get_account-put_account, get_prop-burn_trx, get_account-burn_trx}
use tron_rs.Actuators.{
  invalid_address, balance_not_sufficient, owner_account_missing, lift, parse_address, need_account,
  account_not_exists, witness_has_existed,
}
use tron_rs.Actuators
use tron_rs.Actuators.Transfer.Exact.{burnt, need_some, debit-in, saturating-in}
use tron_rs.Actuators.Candidate.{valid_url, get_witness, put_witness, upgrade_cost}
use tron_rs.Actuators.Candidate.Register.{WitnessCreateContract, validate, execute, new_witness}

accepted :
    (w : World) (c : WitnessCreateContract) (cost : ℤ) (account : Account)
    → get_account w c.owner_address ≡ ok (some account)
    → validate w c ≡ ok cost
    → (parse_address c.owner_address invalid_address ≡ ok c.owner_address)
      × (cost ≡ upgrade_cost w)
      × (valid_url c.url ≡ true)
      × (upgrade_cost w ≤ℤ account.balance)
unfolding validate parse_address need_account lift
accepted w c cost account stored h = ground arith

upgrade_cost_positive : (w : World) → pos 0 <ℤ upgrade_cost w
unfolding upgrade_cost
upgrade_cost_positive w = ground arith

-- The owner's account afterwards.
abbrev pub registered : Account → ℤ → Account
registered account cost = record account { is_witness = true; balance = account.balance -ℤ cost }

get_account-put_witness :
    (witness : Witness) (w : World) (a : Bytes)
    → get_account (put_witness witness w) a ≡ get_account w a
unfolding put_witness get_account
get_account-put_witness witness w a = refl

-- The three changes of a registration.
abbrev after : World → WitnessCreateContract → Witness → Account → ℤ → World
after w c witness account cost =
    burn_trx cost (put_account c.owner_address (registered account cost) (put_witness witness w))

paid :
    (text : Bytes → Bytes) (w : World) (c : WitnessCreateContract) (account : Account)
    → parse_address c.owner_address invalid_address ≡ ok c.owner_address
    → get_account w c.owner_address ≡ ok (some account)
    → upgrade_cost w ≤ℤ account.balance
    → account.balance ≤ℤ i64_max
    → execute text w c ≡ (
      after w c (new_witness text c.owner_address c.url) account (upgrade_cost w),
      ok (upgrade_cost w),
    )
unfolding execute
paid text w c account parsed stored covered max =
    let p = upgrade_cost_positive w in
    let witness = new_witness text c.owner_address c.url in
    let stored' = get_account-put_witness witness w c.owner_address ∙ stored in
    rw
      (
        parsed,
        need_some (put_witness witness w) c.owner_address (Actuators.execute owner_account_missing)
            account stored',
        debit-in account.balance (upgrade_cost w) balance_not_sufficient covered max
            (omega (int_laws, p)),
      )
      refl

witness_stored :
    (w : World) (c : WitnessCreateContract) (witness : Witness) (account : Account) (cost : ℤ)
    → get_witness (after w c witness account cost) witness.address ≡ ok (some witness)
unfolding get_witness put_witness put_account burn_trx put_prop_i64
witness_stored w c witness account cost = rw (bytes_eq_refl witness.address) refl

module _ (w : World) (c : WitnessCreateContract) (witness : Witness) (account : Account)
    (cost : ℤ) where
  account_after :
      (a : Bytes)
      → get_account (after w c witness account cost) a ≡ (
          if bytes_eq c.owner_address a
          then ok (some (registered account cost))
          else get_account w a)
  unfolding put_witness get_account
  account_after a =
      let w₁ = put_witness witness w in
      get_account-burn_trx a cost (put_account c.owner_address (registered account cost) w₁)
      ∙ get_account-put_account c.owner_address a (registered account cost) w₁

  burnt-after :
      pos 0 ≤ℤ burnt w
      → pos 0 ≤ℤ cost
      → burnt w +ℤ cost ≤ℤ i64_max
      → burnt (after w c witness account cost) ≡ burnt w +ℤ cost
  unfolding put_witness put_account get_prop_i64
  burnt-after low nonneg high =
      get_prop-burn_trx burn_trx_amount cost
        (put_account c.owner_address (registered account cost) (put_witness witness w))
      ∙ saturating-in (burnt w +ℤ cost) ((omega (int_laws, low, nonneg)), high)

  exists_after : witness_exists (after w c witness account cost) witness.address ≡ true
  unfolding witness_exists put_witness put_account burn_trx put_prop_i64
  exists_after = rw (bytes_eq_refl witness.address, witness_exists) refl

  second_refused :
      parse_address c.owner_address invalid_address ≡ ok c.owner_address
      → valid_url c.url ≡ true
      → witness.address ≡ c.owner_address
      → validate (after w c witness account cost) c ≡ err (Actuators.validate witness_has_existed)
  unfolding validate
  second_refused parsed url same =
      let found = account_after c.owner_address ∙ rw (bytes_eq_refl c.owner_address) in
      let there : witness_exists (after w c witness account cost) c.owner_address ≡ true =
        subst (λ a. witness_exists (after w c witness account cost) a ≡ true) same exists_after in
      rw
        (
          parsed,
          url,
          need_some (after w c witness account cost) c.owner_address
              (Actuators.validate account_not_exists) (registered account cost) found,
          there,
        )
        refl

-- A registration that is validated, while what is burnt fits an i64, succeeds: its fee is the cost, which
-- leaves the owner's balance and is burnt, the owner is marked and stored as a witness with no votes
-- and the contract's url, no other account changes, and a second registration is refused.
pub register_once :
    (text : Bytes → Bytes) (w : World) (c : WitnessCreateContract) (cost : ℤ) (account : Account)
    → get_account w c.owner_address ≡ ok (some account)
    → validate w c ≡ ok cost
    → account.balance ≤ℤ i64_max
    → (pos 0 ≤ℤ burnt w) × (burnt w +ℤ cost ≤ℤ i64_max)
    → let w' = (execute text w c).0 in
      ((execute text w c).1 ≡ ok cost)
      × ((a : Bytes)
          → get_account w' a ≡ (
              if bytes_eq c.owner_address a
              then ok (some (registered account cost))
              else get_account w a))
      × (burnt w' ≡ burnt w +ℤ cost)
      × (get_witness w' c.owner_address
          ≡ ok (
              some (record {
                address = c.owner_address;
                vote_count = pos 0;
                url = text c.url;
                is_jobs = true;
              })))
      × (validate w' c ≡ err (Actuators.validate witness_has_existed))
unfolding new_witness
register_once text w c cost account stored run max room =
    let (parsed, same, url, covered) = accepted w c cost account stored run in
    let witness = new_witness text c.owner_address c.url in
    let run : execute text w c ≡ (after w c witness account cost, ok cost) =
      subst (λ k. execute text w c ≡ (after w c witness account k, ok k)) (sym same)
        (paid text w c account parsed stored covered max) in
    let nonneg : pos 0 <ℤ cost = subst (λ k. pos 0 <ℤ k) (sym same) (upgrade_cost_positive w) in
    rw run (
      refl,
      account_after w c witness account cost,
      burnt-after w c witness account cost room.0 (omega (int_laws, nonneg)) room.1,
      witness_stored w c witness account cost,
      second_refused w c witness account cost parsed url refl,
    )
