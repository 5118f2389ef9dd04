-- ===== src/Chain/Owner.antt =====
-- `tx_owner_address` of crates/chain/src/lib.rs: the first field of a packed contract, read from
-- its bytes. Numbers are usize and wrap; `<<` takes its distance modulo 64.
use tron_rs.Prelude.{
  leb, ◌==◌, if◌then◌else◌, length, take, drop, Bytes, ℕ, ◌+◌, ◌-◌, ◌*◌, ◌%◌, ◌^◌, ◌&&◌, Option,
  none, some, [], ◌∷◌,
}
use Prim.Native.Nat.{bit_and, bit_or}

-- The loop over the varint's bytes: `len`, `shift` and `i` are its variables, and the answer is
-- the length with the index behind it.
unfoldable pub read_varint : Bytes → ℕ → ℕ → ℕ → Option (ℕ × ℕ)
read_varint [] len shift i = none
read_varint (x ∷ rest) len shift i =
    let len' = bit_or len (bit_and x 127 * 2 ^ (shift % 64) % 2 ^ 64) in
    let more = read_varint rest len' (shift + 7) (i + 1) in
    if bit_and x 128 == 0 then some (len', i + 1) else more

-- `b.get(i..i + len)`
unfoldable pub slice_of : Bytes → ℕ → ℕ → Option Bytes
slice_of b i end =
    if leb i end && leb end (length b) then some (take (end - i) (drop i b)) else none

unfoldable pub owner_field : Bytes → Option Bytes
unfolding read_varint slice_of
owner_field [] = none
owner_field (tag ∷ []) = none
owner_field (tag ∷ rest) =
    if tag == 10
    then elim (read_varint rest 0 0 1) [
      | none ↦ none
      | some (len, i) ↦ slice_of (tag ∷ rest) i ((i + len) % 2 ^ 64)
    ]
    else none
