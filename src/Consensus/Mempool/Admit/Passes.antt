-- ===== src/Consensus/Mempool/Admit/Passes.antt =====
-- What the checks of `admit_transaction` of crates/consensus/src/mempool.rs are for, said of the
-- transaction and not of the checks.
use mathlib.Core.Path.{subst}
use tron_rs.Prelude.Endian.{bytes_eq_iff}
use tron_rs.Prelude.{
  Bool-cases, Option-cases, length, take, drop, Bytes, bytes_eq, ℤ, pos, negsuc, sub_ℕ, ◌+ℤ◌, ◌≤ℤ◌,
  ◌<ℤ◌, leb_ℤ, eqb_ℤ, add_i64, ok, ℕ, ◌+◌, ◌-◌, ◌*◌, ◌/◌, ◌%◌, ◌<◌, ◌≡◌, refl, sym, ap, ◌∙◌, ◌≢◌,
  ◌⊎◌, inl, inr, true, false, Option, none, some, [], ◌∷◌, arith,
}
use tron_rs.Chain.{Transaction, Raw, Block, Env, block_id_of, recover_tx_signer, tx_owner_address}
use tron_rs.Consensus.Mempool.Admit.{
  View, check_signer, check_expiration, candidate, ref_ok, matches_ref, verify_at, verify_ref_block,
  already_stored,
}

-- The signature recovers to an address, which is the owner of the contract where this names one.
abbrev pub IsSignedByOwner : Env → Transaction → Type 0
IsSignedByOwner env tx =
    (signer : Bytes) × (recover_tx_signer env tx ≡ some signer)
    × ((tx_owner_address tx ≡ none) ⊎ (tx_owner_address tx ≡ some signer))

-- No expiration, or one after `now` and at most a day later.
abbrev pub IsInWindow : Raw → ℤ → Type 0
IsInWindow raw now =
    (raw.expiration ≡ pos 0)
    ⊎ ((now <ℤ raw.expiration) × (raw.expiration ≤ℤ add_i64 now (pos 86_400_000)))

-- The block that the two reference bytes name, the last one up to the head whose number ends in
-- these 16 bits, is stored, and the bytes 8 to 16 of its id are the transaction's reference hash.
pub record IsReferred (env : Env) (view : View) (raw : Raw) (head : ℤ) : Type 0 where
  pub high : ℕ
  pub low : ℕ
  pub two : raw.ref_block_bytes ≡ high ∷ low ∷ []
  pub number : ℤ
  pub up_to_head : number ≤ℤ head
  pub last : head <ℤ number +ℤ pos 0x1_0000
  pub round : ℕ
  pub low_bits : number +ℤ pos 0x1_0000 ≡ pos (round * 0x1_0000 + (high * 256 + low))
  pub block : Block
  pub stored : view.block_by_num number ≡ some (some block)
  pub id : Bytes
  pub named : block_id_of env block ≡ some id
  pub hash : take 8 (drop 8 id) ≡ raw.ref_block_hash

-- No reference, or one to a block of the chain: it is not looked up before the first block, nor
-- where the reference is not of two bytes.
abbrev pub HasReference : Env → View → Raw → Type 0
HasReference env view raw =
    (raw.ref_block_hash ≡ [])
    ⊎ ((head : ℤ) × (view.head ≡ some head)
        × ((head ≤ℤ pos 0) ⊎ ((length raw.ref_block_bytes ≢ 2) ⊎ IsReferred env view raw head)))

abbrev pub AreBytes : Bytes → Type 0
AreBytes [] = Unit
AreBytes (b ∷ bytes) = (b < 256) × AreBytes bytes

abbrev pub reference_bytes : Transaction → Bytes
reference_bytes tx = elim tx.raw_data [ none ↦ [] | some raw ↦ raw.ref_block_bytes ]

pub check_signer-IsSignedByOwner :
    (env : Env) (tx : Transaction) → check_signer env tx ≡ ok tt → IsSignedByOwner env tx
unfolding check_signer
check_signer-IsSignedByOwner env tx h = elim (Option-cases (recover_tx_signer env tx)) [
  | inl nobody ↦ absurd (ground arith)
  | inr (signer, e) ↦ elim (Option-cases (tx_owner_address tx)) [
    | inl unowned ↦ (signer, e, inl unowned)
    | inr (owner, o) ↦
        let same : bytes_eq signer owner ≡ true = ground arith in
        (signer, e, inr (o ∙ ap some (sym ((bytes_eq_iff signer owner).0 same))))
  ]
]

pub check_expiration-IsInWindow :
    (raw : Raw) (now : ℤ) → check_expiration raw now ≡ ok tt → IsInWindow raw now
unfolding check_expiration
check_expiration-IsInWindow raw now h = elim (Bool-cases (eqb_ℤ raw.expiration (pos 0))) [
  | inl unset ↦ inl (ground arith)
  | inr set ↦ inr (ground arith, ground arith)
]

pub already_stored-not :
    (view : View) (id : Bytes)
    → already_stored view id ≡ false
    → (t : Transaction) → ¬ (view.transaction id ≡ some (some t))
unfolding already_stored
already_stored-not view id h t e = ground arith

sub_up : (head d : ℕ) → d < 0x1_0000 → sub_ℕ head d +ℤ pos 0x1_0000 ≡ pos (head + 0x1_0000 - d)
unfolding ◌+ℤ◌
sub_up head d small = ground arith

candidate_near :
    (head ref16 : ℕ)
    → ref16 < 0x1_0000
    → (candidate head ref16 ≤ℤ pos head)
      × (pos head <ℤ candidate head ref16 +ℤ pos 0x1_0000)
      × (candidate head ref16 +ℤ pos 0x1_0000
          ≡ pos ((head + 0x1_0000 - ref16) / 0x1_0000 * 0x1_0000 + ref16))
unfolding candidate
candidate_near head ref16 small =
    let d = (head + 0x1_0000 - ref16) % 0x1_0000 in
    let lt : d < 0x1_0000 = omega arith in
    let up = sub_up head d lt in (ground arith, rw up (omega arith), up ∙ ap pos (omega arith))

ref_ok-found :
    (env : Env) (found : Option (Option Block)) (hash : Bytes)
    → ref_ok env found hash ≡ true
    → (block : Block) × (id : Bytes) × (found ≡ some (some block))
      × (block_id_of env block ≡ some id)
      × (take 8 (drop 8 id) ≡ hash)
unfolding ref_ok matches_ref
ref_ok-found env none hash h = absurd (ground arith)
ref_ok-found env (some none) hash h = absurd (ground arith)
ref_ok-found env (some (some block)) hash h = elim (Option-cases (block_id_of env block)) [
  | inl unnamed ↦ absurd (ground arith)
  | inr (id, e) ↦
      let same : bytes_eq (take 8 (drop 8 id)) hash ≡ true = ground arith in
      (block, id, refl, e, (bytes_eq_iff (take 8 (drop 8 id)) hash).0 same)
]

referred :
    (env : Env) (view : View) (raw : Raw) (head high low : ℕ)
    → raw.ref_block_bytes ≡ high ∷ low ∷ []
    → AreBytes raw.ref_block_bytes
    → ref_ok env (view.block_by_num (candidate head (high * 256 + low))) raw.ref_block_hash ≡ true
    → IsReferred env view raw (pos head)
referred env view raw head high low two bytes passed =
    let named = high * 256 + low in
    let (is_high, (is_low, end)) = subst AreBytes two bytes in
    let (up_to_head, last, low_bits) = candidate_near head named (omega arith) in
    let (block, id, stored, is_id, hash) =
      ref_ok-found env (view.block_by_num (candidate head named)) raw.ref_block_hash passed in
    record {
      high = high;
      low = low;
      two = two;
      number = candidate head named;
      up_to_head = up_to_head;
      last = last;
      round = (head + 0x1_0000 - named) / 0x1_0000;
      low_bits = low_bits;
      block = block;
      stored = stored;
      id = id;
      named = is_id;
      hash = hash;
    }

verify_at-IsReferred :
    (env : Env) (view : View) (raw : Raw) (head : ℕ) (bytes : Bytes)
    → raw.ref_block_bytes ≡ bytes
    → AreBytes raw.ref_block_bytes
    → verify_at env view raw (pos head) ≡ ok tt
    → (length raw.ref_block_bytes ≢ 2) ⊎ IsReferred env view raw (pos head)
unfolding verify_at
verify_at-IsReferred env view raw head [] e all h = inl (ground arith)
verify_at-IsReferred env view raw head (b ∷ []) e all h = inl (ground arith)
verify_at-IsReferred env view raw head (b ∷ c ∷ []) e all h =
    inr (referred env view raw head b c e all (ground arith))
verify_at-IsReferred env view raw head (b ∷ c ∷ d ∷ bytes) e all h = inl (ground arith)

pub verify_ref_block-HasReference :
    (env : Env) (view : View) (raw : Raw)
    → AreBytes raw.ref_block_bytes
    → verify_ref_block env view raw ≡ ok tt
    → HasReference env view raw
unfolding verify_ref_block
verify_ref_block-HasReference env view raw all h =
    elim (Bool-cases (bytes_eq raw.ref_block_hash [])) [
      | inl absent ↦ inl ((bytes_eq_iff raw.ref_block_hash []).0 absent)
      | inr present ↦ elim (Option-cases view.head) [
        | inl unread ↦ absurd (ground arith)
        | inr (negsuc n, e) ↦ inr (negsuc n, e, inl (ground arith))
        | inr (pos n, e) ↦ elim (Bool-cases (leb_ℤ (pos n) (pos 0))) [
          | inl early ↦ inr (pos n, e, inl (ground arith))
          | inr later ↦ inr (
            pos n,
            e,
            inr (verify_at-IsReferred env view raw n raw.ref_block_bytes refl all (ground arith)),
          )
        ]
      ]
    ]
