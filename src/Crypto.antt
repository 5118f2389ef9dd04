-- ===== src/Crypto.antt =====
-- crates/crypto: the hashes, keys and signatures of the sha2, sha3 and secp256k1 crates are a
-- parameter; what the crate itself does with a signature's last byte is modelled.
use tron_rs.Prelude.{
  leb, if◌then◌else◌, length, get_elem?, take, take-append, Bytes, ℕ, zero, suc, ◌+◌, ◌-◌, ◌≤◌, ◌≡◌,
  refl, Option, none, some, [], ◌∷◌, ◌++◌, arith,
}

-- The calls: SHA-256; the public key of a secret key; the address of a public key; the 64 bytes
-- r‖s and the recovery id that sign a digest; the public key recovered from a digest, r‖s and a
-- recovery id, if there is one.
pub record Crypto : Type 0 where
  pub sha256 : Bytes → Bytes
  pub public_key : Bytes → Bytes
  pub address_from_public_key : Bytes → Bytes
  pub sign_digest : Bytes → Bytes → Bytes × ℕ
  pub recover : Bytes → Bytes → ℕ → Option Bytes

-- What the crates document of these calls, as far as the program rests on it: a digest has 32
-- bytes, an address 21, a signature 64 and a recovery id from 0 to 3, and a signature's recovery
-- gives back the signer's public key.
pub record IsSound (c : Crypto) : Type 0 where
  pub sha256_len : (x : Bytes) → length (c.sha256 x) ≡ 32
  pub address_len : (pk : Bytes) → length (c.address_from_public_key pk) ≡ 21
  pub sign_len : (sk d : Bytes) → length (c.sign_digest sk d).0 ≡ 64
  pub sign_id : (sk d : Bytes) → (c.sign_digest sk d).1 ≤ 3
  pub recover_sign :
      (sk d : Bytes)
      → c.recover d (c.sign_digest sk d).0 (c.sign_digest sk d).1 ≡ some (c.public_key sk)

-- `bytes[i]` of a slice that is long enough.
abbrev pub byte_at : Bytes → ℕ → ℕ
byte_at bytes i = elim (get_elem? bytes i) [ none ↦ 0 | some b ↦ b ]

-- The recovery id of a signature's last byte: raw, or 27 plus it.
unfoldable pub recovery_id : ℕ → ℕ
recovery_id v = if leb 27 v then v - 27 else v

-- The signer's address of a 65-byte signature over a digest.
unfoldable pub recover_address : Crypto → Bytes → Bytes → Option Bytes
unfolding recovery_id
recover_address c digest sig =
    elim (c.recover digest (take 64 sig) (recovery_id (byte_at sig 64))) [
      | none ↦ none
      | some pk ↦ some (c.address_from_public_key pk)
    ]

byte_at_end : (xs : Bytes) (b n : ℕ) → length xs ≡ n → byte_at (xs ++ b ∷ []) n ≡ b
byte_at_end [] b zero e = refl
byte_at_end [] b (suc n) e = absurd (omega (arith, e))
byte_at_end (x ∷ xs) b zero e = absurd (omega (arith, e))
byte_at_end (x ∷ xs) b (suc n) e = byte_at_end xs b n (omega (arith, e))

-- A signature in the layout r‖s‖(27 + id) gives back its signer's address.
pub recover_address-sign :
    (c : Crypto) (sk digest : Bytes)
    → IsSound c
    → let (rs, id) = c.sign_digest sk digest in
      recover_address c digest (rs ++ (27 + id) ∷ [])
      ≡ some (c.address_from_public_key (c.public_key sk))
unfolding recover_address
recover_address-sign c sk digest s =
    let signed = c.sign_digest sk digest in
    let rs = signed.0 in
    let id = signed.1 in
    rw (
      recover_address,
      take-append 64 rs ((27 + id) ∷ []) (s.sign_len sk digest),
      byte_at_end rs (27 + id) 64 (s.sign_len sk digest),
      back_id id,
      s.recover_sign sk digest,
    )
  where
    back_id : (id : ℕ) → recovery_id (27 + id) ≡ id
    back_id id = ground arith
