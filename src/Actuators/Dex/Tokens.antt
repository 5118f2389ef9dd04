-- ===== src/Actuators/Dex/Tokens.antt =====
-- What the debits and credits of crates/actuators/src/exchange.rs do to an account.
use tron_rs.Prelude.{
  if◌then◌else◌, Bool-cases, Bytes, bytes_eq, ℤ, pos, ◌+ℤ◌, ◌-ℤ◌, ◌≤ℤ◌, Result, ok, err, ◌>>=◌, ◌≡◌,
  refl, sym, ap, ◌∙◌, inl, inr, List, [], ◌∷◌, arith,
}
use mathlib.Core.Path.{subst}
use tron_rs.Prelude.Endian.{bytes_eq_iff}
use tron_rs.State.World.{Account}
use tron_rs.Actuators.{Reason, debit, credit}
use tron_rs.Actuators
use tron_rs.Actuators.Dex.{
  token_balance, trx_symbol_bytes, asset_of, set_asset, with_token, debit_token, credit_token,
  is_trx,
}

asset_of-set_asset :
    (assets : List (Bytes × ℤ)) (id j : Bytes) (amount : ℤ)
    → asset_of (set_asset assets id amount) j
      ≡ (if bytes_eq id j then amount else asset_of assets j)
unfolding asset_of set_asset
asset_of-set_asset [] id j amount = refl
asset_of-set_asset ((key, old) ∷ assets) id j amount = ground (
  arith,
  bytes_eq_iff key id,
  bytes_eq_iff key j,
  bytes_eq_iff id j,
  asset_of-set_asset assets id j amount,
)

pub token_balance-with_token :
    (account : Account) (id j : Bytes) (amount : ℤ)
    → token_balance (with_token account id amount) j
      ≡ (if bytes_eq id j then amount else token_balance account j)
unfolding token_balance with_token
token_balance-with_token account id j amount = ground (
  arith,
  bytes_eq_iff id trx_symbol_bytes,
  bytes_eq_iff j trx_symbol_bytes,
  bytes_eq_iff id j,
  asset_of-set_asset account.asset_v2 id j amount,
)

pub debit-ok :
    (balance amount b : ℤ) (reason : Actuators.Reason)
    → debit balance amount reason ≡ ok b
    → (b ≡ balance -ℤ amount) × (pos 0 ≤ℤ b)
unfolding debit
debit-ok balance amount b reason h = ground arith

pub credit-ok : (balance amount b : ℤ) → credit balance amount ≡ ok b → b ≡ balance +ℤ amount
unfolding credit
credit-ok balance amount b h = ground arith

pub bind_cases :
    {E A B : Type 0} (r : Result E A) (next : A → Result E B) (b : B)
    → (r >>= next) ≡ ok b
    → (a : A) × (r ≡ ok a) × (next a ≡ ok b)
bind_cases (err e) next b h = cc
bind_cases (ok a) next b h = (a, refl, h)

pub debit_token-ok :
    (account paid : Account) (id : Bytes) (amount : ℤ)
    → debit_token account id amount ≡ ok paid
    → (j : Bytes)
    → token_balance paid j
      ≡ (if bytes_eq id j then token_balance account id -ℤ amount else token_balance account j)
unfolding debit_token
debit_token-ok account paid id amount h j =
    let (b, e, last) = bind_cases (debit (token_balance account id) amount _) _ paid h in
    let same : with_token account id b ≡ paid = cc in
    rw (sym same, (debit-ok (token_balance account id) amount b _ e).0)
      (token_balance-with_token account id j (token_balance account id -ℤ amount))

pub credit_token-ok :
    (account paid : Account) (id : Bytes) (amount : ℤ)
    → credit_token account id amount ≡ ok paid
    → (j : Bytes)
    → token_balance paid j
      ≡ (if bytes_eq id j then token_balance account id +ℤ amount else token_balance account j)
unfolding credit_token
credit_token-ok account paid id amount h j =
    let (b, e, last) = bind_cases (credit (token_balance account id) amount) _ paid h in
    let same : with_token account id b ≡ paid = cc in
    rw (sym same, credit-ok (token_balance account id) amount b e)
      (token_balance-with_token account id j (token_balance account id +ℤ amount))

-- The second account has the fields of the first, but for its balance and its assets.
abbrev pub OnlyTokens : Account → Account → Type 0
OnlyTokens account paid = paid ≡ record account { balance = paid.balance; asset_v2 = paid.asset_v2 }

with_token-OnlyTokens :
    (account : Account) (id : Bytes) (amount : ℤ)
    → OnlyTokens account (with_token account id amount)
unfolding with_token
with_token-OnlyTokens account id amount = elim (Bool-cases (is_trx id)) [
  | inl e ↦ rw (e, with_token) refl
  | inr e ↦ rw (e, with_token) refl
]

pub OnlyTokens-trans :
    (account first paid : Account)
    → OnlyTokens account first
    → OnlyTokens first paid
    → OnlyTokens account paid
OnlyTokens-trans account first paid h h' =
    let as_paid : Account → Account =
      λ x. record x { balance = paid.balance; asset_v2 = paid.asset_v2 } in
    h' ∙ ap as_paid h

pub debit_token-OnlyTokens :
    (account paid : Account) (id : Bytes) (amount : ℤ)
    → debit_token account id amount ≡ ok paid
    → OnlyTokens account paid
unfolding debit_token
debit_token-OnlyTokens account paid id amount h =
    let (b, e, last) = bind_cases (debit (token_balance account id) amount _) _ paid h in
    let same : with_token account id b ≡ paid = cc in
    subst (OnlyTokens account) same (with_token-OnlyTokens account id b)

pub credit_token-OnlyTokens :
    (account paid : Account) (id : Bytes) (amount : ℤ)
    → credit_token account id amount ≡ ok paid
    → OnlyTokens account paid
unfolding credit_token
credit_token-OnlyTokens account paid id amount h =
    let (b, e, last) = bind_cases (credit (token_balance account id) amount) _ paid h in
    let same : with_token account id b ≡ paid = cc in
    subst (OnlyTokens account) same (with_token-OnlyTokens account id b)
