-- ===== src/Consensus/Producer/Accepts.antt =====
-- A block of crates/consensus/src/producer.rs passes the gate of crates/consensus/src/lib.rs.
use tron_rs.Prelude.Endian.{
  i64_to_be, i64_from_be, length-i64_to_be, i64_from_be-i64_to_be, bytes_eq_refl,
}
use tron_rs.Prelude.{
  ◌==◌, if◌then◌else◌, Bool-cases, Option-cases, length, take, drop, length-append, take-append,
  Bytes, ℤ, pos, ◌+ℤ◌, ltb_ℤ, eq_of_parts, int_laws, eqb_ℤ_iff, ltb_ℤ→lt, ltb_ℤ→ge, i64_max, IsI64,
  wrap_i64, add_i64, sub_i64, add_i64-in, sub_i64-in, ok, ◌+◌, ◌≡◌, refl, ◌∙◌, inl, inr, Bool, true,
  ◌&&◌, some, List, [], ◌∷◌, ◌++◌, arith,
}
use tron_rs.Crypto.{IsSound, recover_address-sign}
use tron_rs.Chain.{
  Transaction, Block, Env, header_raw, raw_hash, block_id, tx_trie_root, HeaderRaw, block_id_of,
  recover_witness,
}
use mathlib.Core.Path.{subst}
use tron_rs.Chain.Merkle.{zero_hash}
use tron_rs.Consensus.Validation.{check_link, check_parent, is_active, validate_block_intake}
use tron_rs.Consensus.Producer.{parent_number, parent_id, draft_header, sign_header, produce_block}

length-signed :
    (env : Env) (key : Bytes) (digest : Bytes)
    → IsSound env.crypto
    → let sig = env.crypto.sign_digest key digest in length (sig.0 ++ (27 + sig.1) ∷ []) ≡ 65
length-signed env key digest sound =
    let sig = env.crypto.sign_digest key digest in
    rw (length-append sig.0 ((27 + sig.1) ∷ [])) (omega (arith, sound.sign_len key digest))

-- The signature of a produced block recovers to its producer.
recover_witness-produce :
    (env : Env) (parent : Block) (key : Bytes) (timestamp : ℤ) (txs : List Transaction)
    (version : ℤ)
    → IsSound env.crypto
    → recover_witness env (produce_block env parent key timestamp txs version)
      ≡ some (env.crypto.address_from_public_key (env.crypto.public_key key))
unfolding recover_witness produce_block sign_header
recover_witness-produce env parent key time txs version sound =
    let raw = draft_header env parent key time txs version in
    rw (length-signed env key (raw_hash env raw) sound)
      (recover_address-sign env.crypto key (raw_hash env raw) sound)

no_wrap : ltb_ℤ (pos 0) (add_i64 i64_max (pos 1)) ≡ true → ⊥
unfolding add_i64 wrap_i64 ◌+ℤ◌
no_wrap h = cc

-- One up and one down is the same number, unless the sum has wrapped to a negative one.
back_one :
    (n : ℤ)
    → IsI64 n
    → ltb_ℤ (pos 0) (add_i64 n (pos 1)) ≡ true
    → sub_i64 (add_i64 n (pos 1)) (pos 1) ≡ n
back_one n range up = elim (Bool-cases (ltb_ℤ n i64_max)) [
  | inl room ↦
      let below = ltb_ℤ→lt n i64_max room in
      rw (add_i64-in n (pos 1) (omega int_laws))
        (sub_i64-in (n +ℤ pos 1) (pos 1) (omega int_laws) ∙ (omega int_laws))
  | inr top ↦
      let is_max : n ≡ i64_max = eq_of_parts n i64_max (omega (arith, ltb_ℤ→ge n i64_max top)) in
      absurd (no_wrap (subst (λ m. ltb_ℤ (pos 0) (add_i64 m (pos 1)) ≡ true) is_max up))
]

linked :
    (n : ℤ) (hash : Bytes) (long : Bool)
    → IsI64 n
    → (if ltb_ℤ (pos 0) (add_i64 n (pos 1)) && long
        then check_link
            (i64_from_be (take 8 (block_id n hash)))
            (sub_i64 (add_i64 n (pos 1)) (pos 1))
        else ok tt)
      ≡ ok tt
unfolding check_link block_id
linked n hash long range =
    let got : i64_from_be (take 8 (i64_to_be n ++ drop 8 hash)) ≡ n =
      rw (take-append 8 (i64_to_be n) (drop 8 hash) (length-i64_to_be n))
        (i64_from_be-i64_to_be n range) in
    rw got (ground (arith, back_one n range, eqb_ℤ_iff n (sub_i64 (add_i64 n (pos 1)) (pos 1))))

check_parent-linked :
    (raw : HeaderRaw) (n : ℤ) (hash : Bytes)
    → raw.number ≡ add_i64 n (pos 1)
    → raw.parent_hash ≡ block_id n hash
    → IsI64 n
    → check_parent raw ≡ ok tt
unfolding check_parent
check_parent-linked raw n hash num link range =
    rw (num, link) (linked n hash (length (block_id n hash) == 32) range)

-- A parent without a header counts as block 0 with an id of zeros.
zero_hash-block_id : zero_hash ≡ block_id (pos 0) zero_hash
unfolding block_id i64_to_be
zero_hash-block_id = refl

parent_parts :
    (env : Env) (parent : Block)
    → (hash : Bytes) × (parent_id env parent ≡ block_id (parent_number parent) hash)
unfolding parent_number parent_id block_id_of
parent_parts env parent = elim (Option-cases (header_raw parent)) [
  | inl absent ↦ (zero_hash, rw (absent, parent_id, parent_number, block_id_of) zero_hash-block_id)
  | inr (raw, e) ↦ (raw_hash env raw, rw (e, parent_id, parent_number, block_id_of) refl)
]

draft-number :
    (env : Env) (parent : Block) (key : Bytes) (timestamp : ℤ) (txs : List Transaction)
    (version : ℤ)
    → (draft_header env parent key timestamp txs version).number
      ≡ add_i64 (parent_number parent) (pos 1)
unfolding draft_header
draft-number env parent key time txs version = refl

draft-parent :
    (env : Env) (parent : Block) (key : Bytes) (timestamp : ℤ) (txs : List Transaction)
    (version : ℤ)
    → (draft_header env parent key timestamp txs version).parent_hash ≡ parent_id env parent
unfolding draft_header
draft-parent env parent key time txs version = refl

check_parent-draft :
    (env : Env) (parent : Block) (key : Bytes) (timestamp : ℤ) (txs : List Transaction)
    (version : ℤ)
    → IsI64 (parent_number parent)
    → check_parent (draft_header env parent key timestamp txs version) ≡ ok tt
check_parent-draft env parent key time txs version range =
    let (hash, link) = parent_parts env parent in
    check_parent-linked (draft_header env parent key time txs version) (parent_number parent) hash
      (draft-number env parent key time txs version)
      (draft-parent env parent key time txs version ∙ link) range

-- With sound cryptography and a parent whose number is an i64, the block that a witness produces
-- passes the gate of every node that counts the witness as active.
pub produce_block-passes :
    (env : Env) (parent : Block) (witness_key : Bytes) (timestamp : ℤ)
    (transactions : List Transaction) (version : ℤ) (active : List Bytes)
    → IsSound env.crypto
    → IsI64 (parent_number parent)
    → is_active active (env.crypto.address_from_public_key (env.crypto.public_key witness_key))
      ≡ true
    → validate_block_intake env
        (produce_block env parent witness_key timestamp transactions version)
        active
      ≡ ok tt
unfolding validate_block_intake produce_block
produce_block-passes env parent key time txs version active sound range act =
    let raw = draft_header env parent key time txs version in
    let addr = env.crypto.address_from_public_key (env.crypto.public_key key) in
    ground (
      arith,
      bytes_eq_refl (tx_trie_root env txs),
      bytes_eq_refl addr,
      check_parent-draft env parent key time txs version range,
      length-signed env key (raw_hash env raw) sound,
      recover_witness-produce env parent key time txs version sound,
    )
