-- ===== src/Actuators/Transfer/Validated.antt =====
-- A transfer that crates/actuators/src/transfer.rs validates is executed in full.
use tron_rs.Prelude.Endian.{bytes_eq_iff, bytes_eq_refl}
use tron_rs.Prelude.{
  if◌then◌else◌, Bool-cases, Bytes, bytes_eq, ℤ, pos, ◌+ℤ◌, ◌-ℤ◌, ◌≤ℤ◌, i64_max, ok, ◌≡◌, refl, sym,
  ap, ◌∙◌, ◌⊎◌, inl, inr, true, false, some, arith,
}
use tron_rs.State.World.{
  World, Account, burn_trx_amount, read_cell, get_account, account_exists, fresh_account,
  create_account,
}
use tron_rs.State.World.Laws.{get_account-put_account}
use tron_rs.Actuators.{parse_address, invalid_owner_address, invalid_to_address}
use tron_rs.Actuators.Transfer.{
  TransferContract, validate_parsed, validate, execute_parsed, execute,
}
use tron_rs.Actuators.Transfer.Exact.{
  with_balance, settled, IsCovered, move_balance-settled, get_account-settled, burnt,
  prop-put_account, burnt-settled, accepted,
}

-- The account that is credited: the stored one, or a fresh one where none is stored.
abbrev pub IsReceiver : World → Bytes → Account → Type 0
IsReceiver w to target =
    (get_account w to ≡ ok (some target))
    ⊎ ((account_exists w to ≡ false) × (target ≡ fresh_account w to))

-- The world once the receiver has an account.
abbrev pub opened : World → Bytes → World
opened w to = if account_exists w to then w else create_account to w

exists-some :
    (w : World) (a : Bytes) (account : Account)
    → get_account w a ≡ ok (some account)
    → account_exists w a ≡ true
unfolding get_account account_exists read_cell
exists-some w a account h = ground arith

get_account-opened :
    (w : World) (to a : Bytes) (target : Account)
    → IsReceiver w to target
    → get_account (opened w to) a ≡ (if bytes_eq to a then ok (some target) else get_account w a)
unfolding create_account
get_account-opened w to a target r = elim r [
  | inl stored ↦ rw (exists-some w to target stored) (elim (Bool-cases (bytes_eq to a)) [
    | inl same ↦ rw same (rw (sym ((bytes_eq_iff to a).0 same)) stored)
    | inr other ↦ rw other
  ])
  | inr (absent, fresh) ↦ rw absent (get_account-put_account to a (fresh_account w to) w ∙ rw fresh)
]

bytes_eq-swap : (x y : Bytes) → bytes_eq x y ≡ false → bytes_eq y x ≡ false
bytes_eq-swap x y h = ground (arith, bytes_eq_iff x y, bytes_eq_iff y x)

burnt-opened : (w : World) (to : Bytes) → burnt (opened w to) ≡ burnt w
unfolding create_account
burnt-opened w to = elim (Bool-cases (account_exists w to)) [
  | inl stored ↦ rw stored
  | inr absent ↦ rw absent (prop-put_account burn_trx_amount to (fresh_account w to) w)
]

-- What of the state before the transfer the transfer relies on.
pub record IsReady (w : World) (c : TransferContract) (fee : ℤ) (from target : Account)
    : Type 0 where
  pub has_owner : get_account w c.owner_address ≡ ok (some from)
  pub receiver : IsReceiver w c.to_address target
  pub from_max : from.balance ≤ℤ i64_max
  pub target_min : pos 0 ≤ℤ target.balance
  pub target_max : target.balance +ℤ c.amount ≤ℤ i64_max
  pub fee_nonneg : pos 0 ≤ℤ fee
  pub burnt_nonneg : pos 0 ≤ℤ burnt w
  pub burnt_max : burnt w +ℤ fee ≤ℤ i64_max

parsed :
    (w : World) (c : TransferContract) (fee : ℤ)
    → validate w c ≡ ok fee
    → (parse_address c.owner_address invalid_owner_address ≡ ok c.owner_address)
      × (parse_address c.to_address invalid_to_address ≡ ok c.to_address)
      × (validate_parsed w c.owner_address c.to_address c.amount ≡ ok fee)
unfolding validate parse_address
parsed w c fee h = ground arith

is_covered :
    (w : World) (c : TransferContract) (fee : ℤ) (from target : Account)
    → IsReady w c fee from target
    → validate_parsed w c.owner_address c.to_address c.amount ≡ ok fee
    → IsCovered (opened w c.to_address) c.owner_address c.to_address c.amount fee from target
is_covered w c fee from target ready valid_transfer =
    let (apart, amount_pos, same_fee, covered) =
      accepted w c.owner_address c.to_address c.amount fee from ready.has_owner valid_transfer in
    record {
      apart = apart;
      has_owner =
          get_account-opened w c.to_address c.owner_address target ready.receiver
          ∙ rw (bytes_eq-swap c.owner_address c.to_address apart) ready.has_owner;
      has_target =
          get_account-opened w c.to_address c.to_address target ready.receiver
          ∙ rw (bytes_eq_refl c.to_address);
      amount_pos = amount_pos;
      fee_nonneg = ready.fee_nonneg;
      covered = covered;
      from_max = ready.from_max;
      target_min = ready.target_min;
      target_max = ready.target_max;
    }

executed :
    (w : World) (c : TransferContract) (fee : ℤ) (from target : Account)
    → validate w c ≡ ok fee
    → IsReady w c fee from target
    → execute w c ≡ (
      settled (opened w c.to_address) c.owner_address c.to_address c.amount fee from target,
      ok fee,
    )
unfolding execute execute_parsed
executed w c fee from target valid_contract ready =
    let (owner_ok, to_ok, valid_transfer) = parsed w c fee valid_contract in
    let (apart, amount_pos, same_fee, covered) =
      accepted w c.owner_address c.to_address c.amount fee from ready.has_owner valid_transfer in
    rw (owner_ok, to_ok, sym same_fee)
      (move_balance-settled (opened w c.to_address) c.owner_address c.to_address c.amount fee from
        target (is_covered w c fee from target ready valid_transfer))

-- A transfer that `validate` accepts is executed in full, from a state with balances in range: it
-- returns the fee that `validate` has announced; the receiver, created when it has no account, gets
-- the amount, the owner loses the amount and the fee, no other account changes, and the fee is
-- added to what is burnt.
pub transfer-exact :
    (w : World) (c : TransferContract) (fee : ℤ) (from target : Account)
    → validate w c ≡ ok fee
    → IsReady w c fee from target
    → ((execute w c).1 ≡ ok fee)
      × ((a : Bytes)
          → get_account (execute w c).0 a ≡ (
              if bytes_eq c.to_address a
              then ok (some (with_balance target (target.balance +ℤ c.amount)))
              else if bytes_eq c.owner_address a
              then ok (some (with_balance from (from.balance -ℤ (c.amount +ℤ fee))))
              else get_account w a))
      × (burnt (execute w c).0 ≡ burnt w +ℤ fee)
transfer-exact w c fee from target valid_contract ready =
    let still_burnt : burnt (opened w c.to_address) ≡ burnt w = burnt-opened w c.to_address in
    rw (executed w c fee from target valid_contract ready) (
      refl,
      (λ a.
          get_account-settled (opened w c.to_address) c.owner_address c.to_address a c.amount fee
            from target
          ∙ elim (Bool-cases (bytes_eq c.to_address a)) [
            | inl same ↦ rw same
            | inr other ↦
                rw (other, get_account-opened w c.to_address a target ready.receiver, other)
          ]),
      burnt-settled (opened w c.to_address) c.owner_address c.to_address c.amount fee from target
            ready.fee_nonneg (rw still_burnt ready.burnt_nonneg) (rw still_burnt ready.burnt_max)
          ∙ ap (λ b. b +ℤ fee) still_burnt,
    )
