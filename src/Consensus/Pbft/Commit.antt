-- ===== src/Consensus/Pbft/Commit.antt =====
-- `PbftCommit` of crates/consensus/src/pbft.rs: the wire layout, the digest and the signer.
use tron_rs.Crypto.{Crypto, recover_address}
use tron_rs.Prelude.{
  ◌==◌, if◌then◌else◌, length, take, drop, length-append, take-append, drop-append, Bytes, ℤ, IsI64,
  ℕ, ◌≡◌, ◌≢◌, Option, none, some, ◌++◌, arith,
}
use mathlib.Core.List.{append_assoc}
use tron_rs.Prelude.Endian.{i64_to_be, i64_from_be, length-i64_to_be, i64_from_be-i64_to_be}

pub record PbftCommit : Type 0 where
  pub block_num : ℤ
  pub block_id : Bytes
  pub signature : Bytes

abbrev pub encoded_len : ℕ
encoded_len = 105

unfoldable pub encode : PbftCommit → Bytes
encode c = i64_to_be c.block_num ++ (c.block_id ++ c.signature)

unfoldable pub decode : Bytes → Option PbftCommit
decode bytes =
    if length bytes == encoded_len
    then some (record {
      block_num = i64_from_be (take 8 bytes);
      block_id = take 32 (drop 8 bytes);
      signature = drop 40 bytes;
    })
    else none

unfoldable pub digest : Crypto → ℤ → Bytes → Bytes
digest crypto block_num block_id = crypto.sha256 (i64_to_be block_num ++ block_id)

unfoldable pub recover_signer : Crypto → PbftCommit → Option Bytes
unfolding digest
recover_signer crypto c = recover_address crypto (digest crypto c.block_num c.block_id) c.signature

-- The sizes that the array types of the source give.
pub record IsSized (c : PbftCommit) : Type 0 where
  pub num : IsI64 c.block_num
  pub id : length c.block_id ≡ 32
  pub sig : length c.signature ≡ 65

length-encode : (c : PbftCommit) → IsSized c → length (encode c) ≡ encoded_len
unfolding encode
length-encode c h =
    rw
      (
        length-append (i64_to_be c.block_num) (c.block_id ++ c.signature),
        length-append c.block_id c.signature,
      )
      (omega (arith, length-i64_to_be c.block_num, h.id, h.sig))

decode-parts :
    (bytes : Bytes) (c : PbftCommit)
    → length bytes ≡ encoded_len
    → i64_from_be (take 8 bytes) ≡ c.block_num
    → take 32 (drop 8 bytes) ≡ c.block_id
    → drop 40 bytes ≡ c.signature
    → decode bytes ≡ some c
unfolding decode
decode-parts bytes c size num id sig = rw (size, num, id, sig)

-- A commit whose fields have the sizes of the source's types comes back from its encoding.
pub decode-encode : (c : PbftCommit) → IsSized c → decode (encode c) ≡ some c
unfolding encode
decode-encode c h =
    let num = i64_to_be c.block_num in
    let rest = c.block_id ++ c.signature in
    let num_len : length num ≡ 8 = length-i64_to_be c.block_num in
    let head_len : length (num ++ c.block_id) ≡ 40 =
      rw (length-append num c.block_id) (omega (arith, num_len, h.id)) in
    decode-parts (encode c) c (length-encode c h)
      (rw (take-append 8 num rest num_len) (i64_from_be-i64_to_be c.block_num h.num))
      (rw (drop-append 8 num rest num_len) (take-append 32 c.block_id c.signature h.id))
      (rw (← append_assoc num c.block_id c.signature)
        (drop-append 40 (num ++ c.block_id) c.signature head_len))

-- Bytes of any other length are refused.
pub decode_wrong_length : (bytes : Bytes) → length bytes ≢ encoded_len → decode bytes ≡ none
unfolding decode
decode_wrong_length bytes h = ground arith
