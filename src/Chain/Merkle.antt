-- ===== src/Chain/Merkle.antt =====
-- `merkle_root` of crates/chain/src/lib.rs: the binary tree of SHA-256 hashes, in which an odd
-- last node is carried up unchanged.
use tron_rs.Prelude.{
  length, Bytes, ℕ, zero, suc, ◌+◌, ◌/◌, ◌≤◌, ◌≡◌, refl, List, [], ◌∷◌, ◌++◌, arith,
}

-- `H256::ZERO`
abbrev pub zero_hash : Bytes
zero_hash =
    0 ∷ 0 ∷ 0 ∷ 0 ∷ 0 ∷ 0 ∷ 0 ∷ 0 ∷ 0 ∷ 0 ∷ 0 ∷ 0 ∷ 0 ∷ 0 ∷ 0 ∷ 0 ∷ 0 ∷ 0 ∷ 0 ∷ 0 ∷ 0 ∷ 0 ∷ 0 ∷ 0
    ∷ 0 ∷ 0 ∷ 0 ∷ 0 ∷ 0 ∷ 0 ∷ 0 ∷ 0 ∷ []

-- One round of the `while` loop: `level.chunks(2)`.
unfoldable pub next_level : (Bytes → Bytes) → List Bytes → List Bytes
next_level sha256 [] = []
next_level sha256 (odd ∷ []) = odd ∷ []
next_level sha256 (left ∷ right ∷ level) = sha256 (left ++ right) ∷ next_level sha256 level

-- The loop, while more than one hash is left; `rounds` bounds it.
unfoldable pub climb : ℕ → (Bytes → Bytes) → List Bytes → List Bytes
climb zero sha256 level = level
climb (suc rounds) sha256 [] = []
climb (suc rounds) sha256 (top ∷ []) = top ∷ []
climb (suc rounds) sha256 (left ∷ right ∷ level) =
    climb rounds sha256 (next_level sha256 (left ∷ right ∷ level))

-- `level[0]`
abbrev pub top_of : List Bytes → Bytes
top_of [] = []
top_of (top ∷ _) = top

-- Each round shortens a level of two hashes or more, so its length bounds the rounds.
unfoldable pub merkle_root : (Bytes → Bytes) → List Bytes → Bytes
unfolding climb next_level
merkle_root sha256 [] = zero_hash
merkle_root sha256 (hash ∷ hashes) = top_of (climb (length (hash ∷ hashes)) sha256 (hash ∷ hashes))

pub length-next_level :
    (sha256 : Bytes → Bytes) (level : List Bytes)
    → length (next_level sha256 level) ≡ (length level + 1) / 2
unfolding next_level
length-next_level sha256 [] = omega arith
length-next_level sha256 (odd ∷ []) = omega arith
length-next_level sha256 (left ∷ right ∷ level) = omega (arith, length-next_level sha256 level)

-- With at least as many rounds as hashes the loop ends with one hash.
pub climb-single :
    (rounds : ℕ) (sha256 : Bytes → Bytes) (level : List Bytes)
    → length level ≤ rounds
    → 1 ≤ length level
    → length (climb rounds sha256 level) ≡ 1
unfolding climb
climb-single zero sha256 level h k = omega arith
climb-single (suc rounds) sha256 [] h k = absurd (omega arith)
climb-single (suc rounds) sha256 (top ∷ []) h k = refl
climb-single (suc rounds) sha256 (left ∷ right ∷ level) h k =
    let e = length-next_level sha256 (left ∷ right ∷ level) in
    climb-single rounds sha256 (next_level sha256 (left ∷ right ∷ level)) (omega (arith, e))
      (omega (arith, e))
