-- ===== src/Actuators/Transfer/Exact.antt =====
-- What a validated transfer of crates/actuators/src/transfer.rs does to the world state.
use tron_rs.Prelude.{
  if◌then◌else◌, Bool-cases, Bytes, bytes_eq, ℤ, pos, ◌+ℤ◌, ◌-ℤ◌, ◌≤ℤ◌, ltb_ℤ, -ℤ_parts, int_laws,
  ltb_ℤ→ge, i64_max, IsI64, checked, saturating, ok, ◌≡◌, refl, ap, ◌∙◌, inl, inr, false, some,
  arith,
}
use tron_rs.State.World.{
  World, Account, PropKey, get_account, put_account, get_prop_i64, burn_trx, burn_trx_amount,
}
use tron_rs.State.World.Laws.{get_account-put_account, get_prop-burn_trx, get_account-burn_trx}
use tron_rs.Actuators.{
  ActuatorError, lift, need_account, debit, credit, Reason, balance_not_sufficient,
  owner_account_missing, to_account_missing, execute, parse_address,
}
use tron_rs.Actuators
use tron_rs.Actuators.Transfer.{transfer_fee, validate_parsed, credit_target, move_balance}

-- The account with another balance.
abbrev pub with_balance : Account → ℤ → Account
with_balance account balance = record account { balance = balance }

-- The fee is burnt if it is positive.
abbrev pub burn_fee : ℤ → World → World
burn_fee fee w = if ltb_ℤ (pos 0) fee then burn_trx fee w else w

-- The owner is debited, the fee burnt and the target credited.
abbrev pub settled : World → Bytes → Bytes → ℤ → ℤ → Account → Account → World
settled w owner to amount fee from target =
    put_account to (with_balance target (target.balance +ℤ amount))
      (burn_fee fee (put_account owner (with_balance from (from.balance -ℤ (amount +ℤ fee))) w))

pub need_some :
    (w : World) (a : Bytes) (e : ActuatorError) (account : Account)
    → get_account w a ≡ ok (some account)
    → need_account w a e ≡ ok account
unfolding need_account
need_some w a e account h = rw h

checked-in : (a : ℤ) → IsI64 a → checked a ≡ some a
checked-in a h = ground arith

pub debit-in :
    (balance amount : ℤ) (reason : Actuators.Reason)
    → amount ≤ℤ balance
    → balance ≤ℤ i64_max
    → pos 0 ≤ℤ amount
    → debit balance amount reason ≡ ok (balance -ℤ amount)
unfolding debit
debit-in balance amount reason le max nonneg =
    rw (checked-in (balance -ℤ amount) (omega int_laws), debit)
      (ground (arith, -ℤ_parts balance amount))

pub credit-in :
    (balance amount : ℤ)
    → IsI64 (balance +ℤ amount)
    → credit balance amount ≡ ok (balance +ℤ amount)
unfolding credit
credit-in balance amount h = rw (checked-in (balance +ℤ amount) h)

get_account-burn_fee :
    (a : Bytes) (fee : ℤ) (w : World) → get_account (burn_fee fee w) a ≡ get_account w a
get_account-burn_fee a fee w = elim (Bool-cases (ltb_ℤ (pos 0) fee)) [
  | inl burns ↦ rw burns (get_account-burn_trx a fee w)
  | inr free ↦ rw free
]

-- What `move_balance` needs: two different accounts that exist, and balances in range.
pub record IsCovered (w : World) (owner to : Bytes) (amount fee : ℤ) (from target : Account)
    : Type 0 where
  pub apart : bytes_eq owner to ≡ false
  pub has_owner : get_account w owner ≡ ok (some from)
  pub has_target : get_account w to ≡ ok (some target)
  pub amount_pos : pos 0 ≤ℤ amount
  pub fee_nonneg : pos 0 ≤ℤ fee
  pub covered : amount +ℤ fee ≤ℤ from.balance
  pub from_max : from.balance ≤ℤ i64_max
  pub target_min : pos 0 ≤ℤ target.balance
  pub target_max : target.balance +ℤ amount ≤ℤ i64_max

pub move_balance-settled :
    (w : World) (owner to : Bytes) (amount fee : ℤ) (from target : Account)
    → IsCovered w owner to amount fee from target
    → move_balance w owner to amount fee ≡ (settled w owner to amount fee from target, ok fee)
unfolding move_balance credit_target
move_balance-settled w owner to amount fee from target c =
    let total = amount +ℤ fee in
    let w₁ = put_account owner (with_balance from (from.balance -ℤ total)) w in
    let still : get_account (burn_fee fee w₁) to ≡ ok (some target) =
      get_account-burn_fee to fee w₁
      ∙ get_account-put_account owner to (with_balance from (from.balance -ℤ total)) w
      ∙ rw c.apart c.has_target in
    rw (
      checked-in total (omega (int_laws, c.covered, c.from_max, c.amount_pos, c.fee_nonneg)),
      need_some w owner (Actuators.execute Actuators.owner_account_missing) from c.has_owner,
      debit-in from.balance total Actuators.balance_not_sufficient c.covered c.from_max
          (omega (int_laws, c.amount_pos, c.fee_nonneg)),
      need_some (burn_fee fee w₁) to (Actuators.execute Actuators.to_account_missing) target still,
      credit-in target.balance amount (omega (int_laws, c.target_min, c.amount_pos), c.target_max),
    )

pub get_account-settled :
    (w : World) (owner to a : Bytes) (amount fee : ℤ) (from target : Account)
    → get_account (settled w owner to amount fee from target) a ≡ (
        if bytes_eq to a
        then ok (some (with_balance target (target.balance +ℤ amount)))
        else if bytes_eq owner a
        then ok (some (with_balance from (from.balance -ℤ (amount +ℤ fee))))
        else get_account w a)
get_account-settled w owner to a amount fee from target =
    let from' = with_balance from (from.balance -ℤ (amount +ℤ fee)) in
    let w₁ = put_account owner from' w in
    get_account-put_account to a (with_balance target (target.balance +ℤ amount)) (burn_fee fee w₁)
    ∙ ap
        (λ r.
          if bytes_eq to a then ok (some (with_balance target (target.balance +ℤ amount))) else r)
        (get_account-burn_fee a fee w₁ ∙ get_account-put_account owner a from' w)

-- The TRX burnt so far.
abbrev pub burnt : World → ℤ
burnt w = get_prop_i64 w burn_trx_amount

pub prop-put_account :
    (k : PropKey) (a : Bytes) (account : Account) (w : World)
    → get_prop_i64 (put_account a account w) k ≡ get_prop_i64 w k
unfolding get_prop_i64 put_account
prop-put_account k a account w = refl

pub saturating-in : (a : ℤ) → IsI64 a → saturating a ≡ a
saturating-in a h = ground arith

pub burnt-settled :
    (w : World) (owner to : Bytes) (amount fee : ℤ) (from target : Account)
    → pos 0 ≤ℤ fee
    → pos 0 ≤ℤ burnt w
    → burnt w +ℤ fee ≤ℤ i64_max
    → burnt (settled w owner to amount fee from target) ≡ burnt w +ℤ fee
burnt-settled w owner to amount fee from target nonneg now room =
    let from' = with_balance from (from.balance -ℤ (amount +ℤ fee)) in
    let w₁ = put_account owner from' w in
    prop-put_account burn_trx_amount to (with_balance target (target.balance +ℤ amount))
      (burn_fee fee w₁)
    ∙ elim (Bool-cases (ltb_ℤ (pos 0) fee)) [
      | inl burns ↦ rw burns (
          get_prop-burn_trx burn_trx_amount fee w₁
          ∙ ap (λ b. saturating (b +ℤ fee)) (prop-put_account burn_trx_amount owner from' w)
          ∙ saturating-in (burnt w +ℤ fee) (omega (int_laws, now, nonneg), room))
      | inr free ↦ rw free (
          prop-put_account burn_trx_amount owner from' w
          ∙ (omega (int_laws, ltb_ℤ→ge (pos 0) fee free, nonneg)))
    ]

pub accepted :
    (w : World) (owner to : Bytes) (amount fee : ℤ) (from : Account)
    → get_account w owner ≡ ok (some from)
    → validate_parsed w owner to amount ≡ ok fee
    → (bytes_eq owner to ≡ false)
      × (pos 0 ≤ℤ amount)
      × (fee ≡ transfer_fee w to)
      × (amount +ℤ fee ≤ℤ from.balance)
unfolding validate_parsed need_account lift
accepted w owner to amount fee from h e = ground arith

pub parse_address-same :
    (bytes parsed : Bytes) (reason : Actuators.Reason)
    → parse_address bytes reason ≡ ok parsed
    → parsed ≡ bytes
unfolding parse_address
parse_address-same bytes parsed reason e = ground arith
