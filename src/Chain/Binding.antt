-- ===== src/Chain/Binding.antt =====
-- The merkle root of crates/chain/src/lib.rs binds the transactions of a block.
use tron_rs.Prelude.Endian.{bytes_eq_iff}
use tron_rs.Prelude.{
  Bool-cases, length, All, Bytes, bytes_eq, ℕ, zero, suc, ◌≡◌, refl, sym, ◌≢◌, ◌⊎◌, inl, inr, Bool,
  true, false, List, [], ◌∷◌, ◌++◌, arith,
}
use mathlib.Core.Path.{subst}
use tron_rs.Chain.Merkle.{next_level, climb, top_of, merkle_root, length-next_level, climb-single}

-- Two different inputs with one hash.
abbrev pub Collision : (Bytes → Bytes) → Type 0
Collision sha256 = (x : Bytes) × (y : Bytes) × (x ≢ y) × (sha256 x ≡ sha256 y)

-- Every hash has 32 bytes.
abbrev pub Hashes : List Bytes → Type 0
Hashes = All (λ h. length h ≡ 32)

same_halves :
    (n : ℕ) (a b c d : Bytes) → length a ≡ n → length c ≡ n → a ++ b ≡ c ++ d → (a ≡ c) × (b ≡ d)
same_halves zero [] b [] d p q e = (refl, e)
same_halves zero (x ∷ a) b c d p q e = absurd (omega (arith, p))
same_halves zero [] b (y ∷ c) d p q e = absurd (omega (arith, q))
same_halves (suc n) [] b c d p q e = absurd (omega (arith, p))
same_halves (suc n) (x ∷ a) b [] d p q e = absurd (omega (arith, q))
same_halves (suc n) (x ∷ a) b (y ∷ c) d p q e =
    let heads : x ≡ y = cc in
    let tails : a ++ b ≡ c ++ d = cc in
    let (same, rest) = same_halves n a b c d (omega (arith, p)) (omega (arith, q)) tails in
    (cc, rest)

ne_of_bytes_eq : (x y : Bytes) → bytes_eq x y ≡ false → x ≢ y
ne_of_bytes_eq x y h e = clash (bytes_eq x y) ((bytes_eq_iff x y).1 e) h
  where
    clash : (b : Bool) → b ≡ true → b ≡ false → ⊥
    clash b h k = cc

-- Two levels of one length with one next level are equal, or show a collision.
level_binds :
    (sha256 : Bytes → Bytes) (xs ys : List Bytes)
    → length xs ≡ length ys
    → Hashes xs
    → Hashes ys
    → next_level sha256 xs ≡ next_level sha256 ys
    → (xs ≡ ys) ⊎ Collision sha256
unfolding next_level
level_binds sha256 [] [] n hx hy e = inl refl
level_binds sha256 [] (y ∷ ys) n hx hy e = absurd (omega (arith, n))
level_binds sha256 (x ∷ xs) [] n hx hy e = absurd (omega (arith, n))
level_binds sha256 (x ∷ []) (y ∷ []) n hx hy e = inl e
level_binds sha256 (x ∷ []) (y ∷ y' ∷ ys) n hx hy e = absurd (omega (arith, n))
level_binds sha256 (x ∷ x' ∷ xs) (y ∷ []) n hx hy e = absurd (omega (arith, n))
level_binds sha256 (x ∷ x' ∷ xs) (y ∷ y' ∷ ys) n hx hy e =
    let hash : sha256 (x ++ x') ≡ sha256 (y ++ y') = cc in
    let rest : next_level sha256 xs ≡ next_level sha256 ys = cc in
    elim (Bool-cases (bytes_eq (x ++ x') (y ++ y'))) [
      | inl same ↦ elim (level_binds sha256 xs ys (omega (arith, n)) hx.1.1 hy.1.1 rest) [
        | inl tail ↦
            let pair = (bytes_eq_iff (x ++ x') (y ++ y')).0 same in
            let (l, r) = same_halves 32 x x' y y' hx.0 hy.0 pair in inl (cc)
        | inr found ↦ inr found
      ]
      | inr differ ↦ inr (x ++ x', y ++ y', ne_of_bytes_eq (x ++ x') (y ++ y') differ, hash)
    ]

Hashes-next_level :
    (sha256 : Bytes → Bytes) (xs : List Bytes)
    → ((x : Bytes) → length (sha256 x) ≡ 32)
    → Hashes xs
    → Hashes (next_level sha256 xs)
unfolding next_level
Hashes-next_level sha256 [] size h = tt
Hashes-next_level sha256 (x ∷ []) size h = h
Hashes-next_level sha256 (x ∷ y ∷ xs) size h =
    (size (x ++ y), Hashes-next_level sha256 xs size h.1.1)

-- So have two levels that end in one top, after as many rounds as are needed.
climb_binds :
    (rounds : ℕ) (sha256 : Bytes → Bytes) (xs ys : List Bytes)
    → ((x : Bytes) → length (sha256 x) ≡ 32)
    → length xs ≡ length ys
    → Hashes xs
    → Hashes ys
    → climb rounds sha256 xs ≡ climb rounds sha256 ys
    → (xs ≡ ys) ⊎ Collision sha256
unfolding climb
climb_binds zero sha256 xs ys size n hx hy e = inl e
climb_binds (suc rounds) sha256 [] [] size n hx hy e = inl e
climb_binds (suc rounds) sha256 [] (y ∷ ys) size n hx hy e = absurd (omega (arith, n))
climb_binds (suc rounds) sha256 (x ∷ xs) [] size n hx hy e = absurd (omega (arith, n))
climb_binds (suc rounds) sha256 (x ∷ []) (y ∷ []) size n hx hy e = inl e
climb_binds (suc rounds) sha256 (x ∷ []) (y ∷ y' ∷ ys) size n hx hy e = absurd (omega (arith, n))
climb_binds (suc rounds) sha256 (x ∷ x' ∷ xs) (y ∷ []) size n hx hy e = absurd (omega (arith, n))
climb_binds (suc rounds) sha256 (x ∷ x' ∷ xs) (y ∷ y' ∷ ys) size n hx hy e =
    let xs' = x ∷ x' ∷ xs in
    let ys' = y ∷ y' ∷ ys in
    let same_len : length (next_level sha256 xs') ≡ length (next_level sha256 ys') =
      omega (arith, length-next_level sha256 xs', length-next_level sha256 ys', n) in
    elim (climb_binds rounds sha256 (next_level sha256 xs') (next_level sha256 ys') size same_len
      (Hashes-next_level sha256 xs' size hx) (Hashes-next_level sha256 ys' size hy) e) [
        | inl up ↦ level_binds sha256 xs' ys' n hx hy up
        | inr found ↦ inr found
      ]

-- A list of one is its top.
single : (xs ys : List Bytes) → length xs ≡ 1 → length ys ≡ 1 → top_of xs ≡ top_of ys → xs ≡ ys
single [] ys n m e = absurd (omega (arith, n))
single (x ∷ x' ∷ xs) ys n m e = absurd (omega (arith, n))
single (x ∷ []) [] n m e = absurd (omega (arith, m))
single (x ∷ []) (y ∷ y' ∷ ys) n m e = absurd (omega (arith, m))
single (x ∷ []) (y ∷ []) n m e = cc

-- Two lists of as many transaction hashes with the same root are the same list, or they show two
-- inputs on which SHA-256 collides.
pub merkle_root-binds :
    (sha256 : Bytes → Bytes) (xs ys : List Bytes)
    → ((x : Bytes) → length (sha256 x) ≡ 32)
    → length xs ≡ length ys
    → Hashes xs
    → Hashes ys
    → merkle_root sha256 xs ≡ merkle_root sha256 ys
    → (xs ≡ ys) ⊎ Collision sha256
unfolding merkle_root
merkle_root-binds sha256 [] [] size n hx hy e = inl refl
merkle_root-binds sha256 [] (y ∷ ys) size n hx hy e = absurd (omega (arith, n))
merkle_root-binds sha256 (x ∷ xs) [] size n hx hy e = absurd (omega (arith, n))
merkle_root-binds sha256 (x ∷ xs) (y ∷ ys) size n hx hy e =
    let xs' = x ∷ xs in
    let ys' = y ∷ ys in
    let rounds = length xs' in
    let e' : top_of (climb rounds sha256 xs') ≡ top_of (climb rounds sha256 ys') =
      subst (λ k. top_of (climb rounds sha256 xs') ≡ top_of (climb k sha256 ys')) (sym n) e in
    climb_binds rounds sha256 xs' ys' size n hx hy (
      single (climb rounds sha256 xs') (climb rounds sha256 ys')
        (climb-single rounds sha256 xs' (omega arith) (omega arith))
        (climb-single rounds sha256 ys' (omega (arith, n)) (omega arith)) e')
