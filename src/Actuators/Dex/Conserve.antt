-- ===== src/Actuators/Dex/Conserve.antt =====
-- The trades of crates/actuators/src/exchange.rs move tokens between an account and a pool.
use tron_rs.Prelude.Endian.{bytes_eq_iff, bytes_eq_refl}
use tron_rs.Prelude.{
  if◌then◌else◌, Bool-cases, Bytes, bytes_eq, ℤ, pos, ◌+ℤ◌, ◌-ℤ◌, int_laws, IsI64, add_i64-in, ok,
  ◌≡◌, ap, ◌∙◌, ◌⊎◌, inl, inr, false, arith,
}
use tron_rs.State.World.{Account, Exchange}
use tron_rs.Actuators.Dex.{token_balance, debit_token, paired}
use tron_rs.Actuators.Dex.Tokens.{
  debit_token-ok, bind_cases, OnlyTokens, OnlyTokens-trans, debit_token-OnlyTokens,
}
use tron_rs.Actuators.Dex.Inject.{injected, pay_in}

-- What the pool holds of a token.
abbrev pub pool_balance : Exchange → Bytes → ℤ
pool_balance ex id =
    if bytes_eq ex.first_token_id id
    then ex.first_token_balance
    else if bytes_eq ex.second_token_id id
    then ex.second_token_balance
    else pos 0

-- A pool of two tokens, one of which is the token of the trade.
pub record IsPool (ex : Exchange) (token_id : Bytes) : Type 0 where
  pub apart : bytes_eq ex.first_token_id ex.second_token_id ≡ false
  pub member : (token_id ≡ ex.first_token_id) ⊎ (token_id ≡ ex.second_token_id)

-- Two balances before and after, whose sums are the same for every token.
abbrev pub Conserved : Account → Exchange → Account → Exchange → Type 0
Conserved account ex account' ex' =
    (j : Bytes)
    → token_balance account' j +ℤ pool_balance ex' j ≡ token_balance account j +ℤ pool_balance ex j

-- The other token of the pool.
abbrev pub other_token : Exchange → Bytes → Bytes
other_token ex token_id =
    if bytes_eq token_id ex.first_token_id then ex.second_token_id else ex.first_token_id

pub paired-other :
    (ex : Exchange) (token_id : Bytes) (quant : ℤ) (other : Bytes × ℤ)
    → paired ex token_id quant ≡ ok other
    → other.0 ≡ other_token ex token_id
unfolding paired
paired-other ex token_id quant other h = ground arith

-- If a trade changes only the balances of `t` and `o`, and keeps the sum for both, it keeps all sums.
pub conserved_if :
    (held held' pool pool' : Bytes → ℤ) (t o j : Bytes) (x y u v : ℤ)
    → held' j ≡ (if bytes_eq o j then u else if bytes_eq t j then x else held j)
    → pool' j ≡ (if bytes_eq o j then v else if bytes_eq t j then y else pool j)
    → u +ℤ v ≡ held o +ℤ pool o
    → x +ℤ y ≡ held t +ℤ pool t
    → held' j +ℤ pool' j ≡ held j +ℤ pool j
conserved_if held held' pool pool' t o j x y u v e e' sum_o sum_t =
    let sum = λ (i : Bytes). held i +ℤ pool i in
    elim (Bool-cases (bytes_eq o j)) [
      | inl is_o ↦ rw (e, e', is_o) (sum_o ∙ ap sum ((bytes_eq_iff o j).0 is_o))
      | inr not_o ↦ elim (Bool-cases (bytes_eq t j)) [
        | inl is_t ↦ rw (e, e', not_o, is_t) (sum_t ∙ ap sum ((bytes_eq_iff t j).0 is_t))
        | inr not_t ↦ rw (e, e', not_o, not_t)
      ]
    ]

pub back_in : (x y a : ℤ) → (x -ℤ a) +ℤ (y +ℤ a) ≡ x +ℤ y
back_in x y a = omega int_laws

pub back_out : (x y a : ℤ) → (x +ℤ a) +ℤ (y -ℤ a) ≡ x +ℤ y
back_out x y a = omega int_laws

-- The balances after two of them were set.
abbrev pub Sets : (Bytes → ℤ) → (Bytes → ℤ) → Bytes → Bytes → ℤ → ℤ → Type 0
Sets held paid t o x u =
    (j : Bytes) → paid j ≡ (if bytes_eq o j then u else if bytes_eq t j then x else held j)

-- The first change leaves the other token alone.
untouched :
    (held first : Bytes → ℤ) (t o : Bytes) (x : ℤ)
    → bytes_eq t o ≡ false
    → ((j : Bytes) → first j ≡ (if bytes_eq t j then x else held j))
    → first o ≡ held o
untouched held first t o x apart e = e o ∙ (rw apart)

-- One balance changes, and then that of another token.
pub two_steps :
    (held first paid : Bytes → ℤ) (t o : Bytes) (x : ℤ) (next : ℤ → ℤ)
    → bytes_eq t o ≡ false
    → ((j : Bytes) → first j ≡ (if bytes_eq t j then x else held j))
    → ((j : Bytes) → paid j ≡ (if bytes_eq o j then next (first o) else first j))
    → Sets held paid t o x (next (held o))
two_steps held first paid t o x next apart e e' j =
    e' j
    ∙ ap (λ r. if bytes_eq o j then next (first o) else r) (e j)
    ∙ ap (λ r. if bytes_eq o j then next r else if bytes_eq t j then x else held j)
        (untouched held first t o x apart e)

-- The two tokens of a trade differ.
pub other-apart :
    (ex : Exchange) (token_id : Bytes)
    → IsPool ex token_id
    → bytes_eq token_id (other_token ex token_id) ≡ false
other-apart ex token_id p = ground (
  arith,
  p.apart,
  p.member,
  bytes_eq_iff token_id ex.first_token_id,
  bytes_eq_iff ex.first_token_id ex.second_token_id,
  bytes_eq_iff token_id ex.second_token_id,
)

pool_balance-injected :
    (ex : Exchange) (token_id : Bytes) (quant another : ℤ)
    → IsPool ex token_id
    → IsI64 (pool_balance ex token_id +ℤ quant)
    → IsI64 (pool_balance ex (other_token ex token_id) +ℤ another)
    → (j : Bytes)
    → pool_balance (injected ex token_id quant another) j ≡ (
        if bytes_eq (other_token ex token_id) j
        then pool_balance ex (other_token ex token_id) +ℤ another
        else if bytes_eq token_id j
        then pool_balance ex token_id +ℤ quant
        else pool_balance ex j)
unfolding injected
pool_balance-injected ex token_id quant another p room room' j = ground (
  arith,
  p.apart,
  p.member,
  room,
  room',
  bytes_eq_iff token_id ex.first_token_id,
  bytes_eq_iff ex.first_token_id j,
  bytes_eq_iff token_id j,
  bytes_eq_iff ex.second_token_id j,
  bytes_eq_iff token_id ex.second_token_id,
  bytes_eq_refl token_id,
  bytes_eq_refl ex.first_token_id,
  bytes_eq_refl ex.second_token_id,
  add_i64-in ex.first_token_balance quant,
  add_i64-in ex.second_token_balance quant,
  add_i64-in ex.first_token_balance another,
  add_i64-in ex.second_token_balance another,
)

pub pay_in-Sets :
    (ex : Exchange) (account paid : Account) (token_id : Bytes) (quant another : ℤ)
    → IsPool ex token_id
    → pay_in account token_id quant (other_token ex token_id, another) ≡ ok paid
    → Sets
        (token_balance account)
        (token_balance paid)
        token_id
        (other_token ex token_id)
        (token_balance account token_id -ℤ quant)
        (token_balance account (other_token ex token_id) -ℤ another)
unfolding pay_in
pay_in-Sets ex account paid token_id quant another p h =
    let o = other_token ex token_id in
    let (first, e, last) = bind_cases (debit_token account token_id quant) _ paid h in
    two_steps (token_balance account) (token_balance first) (token_balance paid) token_id o _
      (λ b. b -ℤ another) (other-apart ex token_id p)
      (debit_token-ok account first token_id quant e) (debit_token-ok first paid o another last)

pub pay_in-OnlyTokens :
    (ex : Exchange) (account paid : Account) (token_id : Bytes) (quant another : ℤ)
    → pay_in account token_id quant (other_token ex token_id, another) ≡ ok paid
    → OnlyTokens account paid
unfolding pay_in
pay_in-OnlyTokens ex account paid token_id quant another h =
    let (first, e, last) = bind_cases (debit_token account token_id quant) _ paid h in
    OnlyTokens-trans account first paid (debit_token-OnlyTokens account first token_id quant e)
      (debit_token-OnlyTokens first paid (other_token ex token_id) another last)

-- What an injection debits to the account is what it adds to the pool, for every token.
pub pay_in-conserves :
    (ex : Exchange) (account paid : Account) (token_id : Bytes) (quant another : ℤ)
    → IsPool ex token_id
    → pay_in account token_id quant (other_token ex token_id, another) ≡ ok paid
    → IsI64 (pool_balance ex token_id +ℤ quant)
    → IsI64 (pool_balance ex (other_token ex token_id) +ℤ another)
    → Conserved account ex paid (injected ex token_id quant another)
pay_in-conserves ex account paid token_id quant another p h room room' j =
    conserved_if (token_balance account) (token_balance paid) (pool_balance ex)
      (pool_balance (injected ex token_id quant another)) token_id (other_token ex token_id) j _ _ _
      _ (pay_in-Sets ex account paid token_id quant another p h j)
      (pool_balance-injected ex token_id quant another p room room' j) (back_in _ _ another)
      (back_in _ _ quant)
