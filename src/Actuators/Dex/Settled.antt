-- ===== src/Actuators/Dex/Settled.antt =====
-- The executions of crates/actuators/src/exchange.rs on the world state.
use tron_rs.Prelude.{
  if◌then◌else◌, Bool-cases, Bytes, bytes_eq, ℤ, eqb_ℤ, ok, err, ◌>>=◌, ok_or, ◌≡◌, refl, ap, ◌∙◌,
  inl, inr, some,
}
use tron_rs.State.World.{World, Account, Exchange, get_account, put_account}
use tron_rs.State.World.Laws.{get_account-put_account}
use tron_rs.Actuators.{ActuatorError, lift, need_account}
use tron_rs.Actuators.Dex.{token_balance, get_exchange, put_exchange}
use tron_rs.Actuators.Dex.Conserve.{Conserved, Sets}
use tron_rs.Actuators.Dex.Tokens.{OnlyTokens}

pub not_ok : {A : Type 0} {e : ActuatorError} {a : A} → ¬ (err e ≡ ok a)
not_ok h = cc

-- The owner and the pool that an execution works on.
pub record IsLoaded (w : World) (owner : Bytes) (exchange_id : ℤ) (account : Account)
    (ex : Exchange) : Type 0 where
  pub has_owner : get_account w owner ≡ ok (some account)
  pub has_pool : get_exchange w exchange_id ≡ ok (some ex)
  pub keyed : ex.exchange_id ≡ exchange_id

-- The second pool has the fields of the first, but for its two balances.
abbrev pub OnlyBalances : Exchange → Exchange → Type 0
OnlyBalances ex ex' = ex' ≡ record ex {
  first_token_balance = ex'.first_token_balance;
  second_token_balance = ex'.second_token_balance;
}

-- What an execution on the token `t` comes to: the owner has `x` of it, `u` of the other token `o`, and
-- of any other token what it had; what it lost the pool gained, for every token. Nothing else
-- changes: no other field of the owner's account or of the pool, no other account, no other pool, and
-- no other part of the state.
pub record Moved (w : World) (owner : Bytes) (exchange_id : ℤ) (account : Account) (ex : Exchange)
    (t o : Bytes) (x u : ℤ) (w' : World) : Type 0 where
  pub account' : Account
  pub ex' : Exchange
  pub amounts : Sets (token_balance account) (token_balance account') t o x u
  pub sums : Conserved account ex account' ex'
  pub only_tokens : OnlyTokens account account'
  pub only_balances : OnlyBalances ex ex'
  pub accounts_after :
      (a : Bytes)
      → get_account w' a ≡ (if bytes_eq owner a then ok (some account') else get_account w a)
  pub pools_after :
      (n : ℤ)
      → get_exchange w' n ≡ (if eqb_ℤ exchange_id n then ok (some ex') else get_exchange w n)
  pub rest : w' ≡ record w { accounts = w'.accounts; exchanges = w'.exchanges }

get_exchange-put_exchange :
    (ex : Exchange) (w : World) (n : ℤ)
    → get_exchange (put_exchange ex w) n
      ≡ (if eqb_ℤ ex.exchange_id n then ok (some ex) else get_exchange w n)
unfolding get_exchange put_exchange
get_exchange-put_exchange ex w n = elim (Bool-cases (eqb_ℤ ex.exchange_id n)) [
  | inl same ↦ rw same
  | inr other ↦ rw other
]

get_exchange-put_account :
    (a : Bytes) (account : Account) (w : World) (n : ℤ)
    → get_exchange (put_account a account w) n ≡ get_exchange w n
unfolding get_exchange put_account
get_exchange-put_account a account w n = refl

get_account-put_exchange :
    (ex : Exchange) (w : World) (a : Bytes) → get_account (put_exchange ex w) a ≡ get_account w a
unfolding get_account put_exchange
get_account-put_exchange ex w a = refl

rest_settled :
    (w : World) (owner : Bytes) (paid : Account) (ex' : Exchange)
    → let w' = put_exchange ex' (put_account owner paid w) in
      w' ≡ record w { accounts = w'.accounts; exchanges = w'.exchanges }
unfolding put_exchange put_account
rest_settled w owner paid ex' = refl

pub moved :
    (w : World) (owner : Bytes) (exchange_id : ℤ) (account paid : Account) (ex ex' : Exchange)
    (t o : Bytes) (x u : ℤ)
    → Sets (token_balance account) (token_balance paid) t o x u
    → Conserved account ex paid ex'
    → OnlyTokens account paid
    → OnlyBalances ex ex'
    → ex.exchange_id ≡ exchange_id
    → Moved w owner exchange_id account ex t o x u (put_exchange ex' (put_account owner paid w))
moved w owner exchange_id account paid ex ex' t o x u amounts sums tokens balances keyed =
    let w₁ = put_account owner paid w in
    let key : ex'.exchange_id ≡ exchange_id = ap (λ e. e.exchange_id) balances ∙ keyed in
    record {
      account' = paid;
      ex' = ex';
      amounts = amounts;
      sums = sums;
      only_tokens = tokens;
      only_balances = balances;
      accounts_after =
          λ a. get_account-put_exchange ex' w₁ a ∙ get_account-put_account owner a paid w;
      pools_after = λ n.
          get_exchange-put_exchange ex' w₁ n ∙ rw (key, get_exchange-put_account owner paid w n);
      rest = rest_settled w owner paid ex';
    }

pub loaded_pool :
    (w : World) (id : ℤ) (e : ActuatorError) (ex : Exchange)
    → get_exchange w id ≡ ok (some ex)
    → (do found ← get_exchange w id; ok_or found e) ≡ ok ex
loaded_pool w id e ex h = rw h

pub loaded_owner :
    (w : World) (owner : Bytes) (e : ActuatorError) (account : Account)
    → get_account w owner ≡ ok (some account)
    → need_account w owner e ≡ ok account
unfolding need_account lift
loaded_owner w owner e account h = rw h
