-- ===== src/State/World/Laws.antt =====
-- The accessors of crates/state/src/lib.rs as laws of a map.
use tron_rs.Prelude.Endian.{length-i64_to_be, i64_from_be-i64_to_be}
use tron_rs.Prelude.{
  ◌==◌, if◌then◌else◌, Bool-cases, Bytes, bytes_eq, ℤ, pos, ◌+ℤ◌, int_laws, IsI64, saturating,
  add_i64, add_i64-in, ok, ℕ, suc, ◌+◌, ◌^◌, ◌<◌, ◌≡◌, refl, ◌∙◌, inl, inr, false, some, arith,
}
use tron_rs.State.World.{
  World, Account, PropKey, tag, get_account, put_account, get_prop_i64, put_prop_i64, burn_trx,
  burn_trx_amount, put_brokerage, get_brokerage, allocate_token_id, get_token_id_num, token_id_num,
}

pub get_account-put_account :
    (addr a : Bytes) (account : Account) (w : World)
    → get_account (put_account addr account w) a
      ≡ (if bytes_eq addr a then ok (some account) else get_account w a)
unfolding get_account put_account
get_account-put_account addr a account w = elim (Bool-cases (bytes_eq addr a)) [
  | inl same ↦ rw same
  | inr other ↦ rw other
]

-- A property that is written reads back, and no other property changes.
pub get_prop-put_prop :
    (key k : PropKey) (value : ℤ) (w : World)
    → IsI64 value
    → get_prop_i64 (put_prop_i64 key value w) k
      ≡ (if tag key == tag k then value else get_prop_i64 w k)
unfolding get_prop_i64 put_prop_i64
get_prop-put_prop key k value w range = elim (Bool-cases (tag key == tag k)) [
  | inl same ↦ rw (same, length-i64_to_be value) (i64_from_be-i64_to_be value range)
  | inr other ↦ rw other
]

saturating-IsI64 : (a : ℤ) → IsI64 (saturating a)
saturating-IsI64 a = ground arith

pub get_prop-burn_trx :
    (k : PropKey) (amount : ℤ) (w : World)
    → get_prop_i64 (burn_trx amount w) k ≡ (
        if tag burn_trx_amount == tag k
        then saturating (get_prop_i64 w burn_trx_amount +ℤ amount)
        else get_prop_i64 w k)
unfolding burn_trx
get_prop-burn_trx k amount w =
    let total = saturating (get_prop_i64 w burn_trx_amount +ℤ amount) in
    get_prop-put_prop burn_trx_amount k total w
      (saturating-IsI64 (get_prop_i64 w burn_trx_amount +ℤ amount))

pub get_account-burn_trx :
    (a : Bytes) (amount : ℤ) (w : World) → get_account (burn_trx amount w) a ≡ get_account w a
unfolding get_account burn_trx
get_account-burn_trx a amount w = refl

-- A brokerage that is set is the one that is read, for every witness but this one the old holds.
pub get_brokerage-put_brokerage :
    (addr a : Bytes) (pct : ℤ) (w : World)
    → IsI64 pct
    → get_brokerage (put_brokerage addr pct w) a
      ≡ (if bytes_eq addr a then pct else get_brokerage w a)
unfolding get_brokerage put_brokerage
get_brokerage-put_brokerage addr a pct w range = elim (Bool-cases (bytes_eq addr a)) [
  | inl same ↦ rw (same, length-i64_to_be pct) (i64_from_be-i64_to_be pct range)
  | inr other ↦ rw other
]

counter_after :
    (w : World) (m : ℕ)
    → suc m < 2 ^ 63
    → get_token_id_num (put_prop_i64 token_id_num (pos (suc m)) w) ≡ pos (suc m)
unfolding get_token_id_num
counter_after w m h =
    rw (get_prop-put_prop token_id_num token_id_num (pos (suc m)) w (omega arith)) (ground arith)

next_id : (n : ℕ) → n + 3 < 2 ^ 63 → add_i64 (pos (suc n)) (pos 1) ≡ pos (suc (suc n))
next_id n h = add_i64-in (pos (suc n)) (pos 1) (omega int_laws) ∙ (omega int_laws)

-- Token ids are handed out one after the other: while the counter stays below the last i64, an
-- allocation gives one more than the counter, which is 1,000,000 when unset, and moves it there.
pub allocate_token_id-next :
    (w : World) (n : ℕ)
    → get_token_id_num w ≡ pos (suc n)
    → n + 3 < 2 ^ 63
    → ((allocate_token_id w).0 ≡ pos (suc (suc n)))
      × (get_token_id_num (allocate_token_id w).1 ≡ pos (suc (suc n)))
unfolding allocate_token_id
allocate_token_id-next w n e h = rw (e, next_id n h) (refl, counter_after w (suc n) (omega arith))

pub get_prop-put_other :
    (key k : PropKey) (value : ℤ) (w : World)
    → tag key == tag k ≡ false
    → get_prop_i64 (put_prop_i64 key value w) k ≡ get_prop_i64 w k
unfolding get_prop_i64 put_prop_i64
get_prop-put_other key k value w other = rw other refl
