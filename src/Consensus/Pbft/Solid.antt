-- ===== src/Consensus/Pbft/Solid.antt =====
-- `solidified_block` of crates/consensus/src/pbft.rs: the end of the run of final blocks from 1.
use tron_rs.Prelude.{
  leb, Bool-cases, ℤ, pos, ◌+ℤ◌, leb_ℤ, int_laws, ℕ, zero, suc, ◌+◌, ◌≤◌, ◌<◌, ◌≡◌, refl, ◌⊎◌, inl,
  inr, Bool, true, false, Option, none, some, arith,
}
use tron_rs.Consensus.Pbft.{Confirmations, final_at, solid_from, solidified_block}

-- Every block from 1 to `m` is final.
abbrev pub FinalUpTo : Confirmations → ℕ → ℕ → Type 0
FinalUpTo conf total m = (k : ℕ) → 1 ≤ k → k ≤ m → final_at conf total (pos k) ≡ true

-- `m` is the last block of the run of final blocks that starts at 1 and ends at `head` at most.
pub record IsSolid (conf : Confirmations) (total head m : ℕ) : Type 0 where
  pub below : m ≤ head
  pub final : FinalUpTo conf total m
  pub ends : (m ≡ head) ⊎ (final_at conf total (pos (suc m)) ≡ false)

-- The option that stands for the run up to `m`: nothing is final if `m` is 0.
abbrev pub solid_of : ℕ → Option ℤ
solid_of zero = none
solid_of (suc m) = some (pos (suc m))

suc_pos : (n : ℕ) → pos n +ℤ pos 1 ≡ pos (suc n)
suc_pos n = omega int_laws

FinalUpTo-suc :
    (conf : Confirmations) (total m : ℕ)
    → FinalUpTo conf total m
    → final_at conf total (pos (suc m)) ≡ true
    → FinalUpTo conf total (suc m)
FinalUpTo-suc conf total m h e k lo hi = elim (Bool-cases (leb k m)) [
  | inl old ↦ h k lo (ground arith)
  | inr new ↦ let is_last : k ≡ suc m = ground arith in rw is_last e
]

abbrev Found : Confirmations → ℕ → ℕ → Option ℤ → Type 0
Found conf total head r = (m : ℕ) × (r ≡ solid_of m) × IsSolid conf total head m

solid_from-Found :
    (rounds m : ℕ) (conf : Confirmations) (head total : ℕ)
    → rounds + m ≡ head
    → FinalUpTo conf total m
    → Found conf total head (solid_from rounds conf (pos head) total (pos (suc m)) (solid_of m))
unfolding solid_from
solid_from-Found zero m conf head total e h =
    (m, refl, record { below = omega arith; final = h; ends = inl (omega arith) })
solid_from-Found (suc rounds) m conf head total e h =
    let inside : leb_ℤ (pos (suc m)) (pos head) ≡ true = ground arith in
    rw inside (elim (Bool-cases (final_at conf total (pos (suc m)))) [
      | inl final ↦
          rw (final, suc_pos (suc m))
            (solid_from-Found rounds (suc m) conf head total (omega arith)
              (FinalUpTo-suc conf total m h final))
      | inr gap ↦ rw gap (m, refl, record { below = omega arith; final = h; ends = inr gap })
    ])

-- The result stands for the last block of the unbroken run of final blocks from block 1, at most
-- the head; it is `None` exactly when that run is empty.
pub solidified_block-IsSolid :
    (conf : Confirmations) (head total : ℕ)
    → (m : ℕ) × (solidified_block conf (pos head) total ≡ solid_of m) × IsSolid conf total head m
unfolding solidified_block
solidified_block-IsSolid conf head total =
    solid_from-Found head 0 conf head total (omega arith) (λ k lo hi. absurd (omega arith))

-- The run that is found is the only one: any block that ends such a run is the result.
pub IsSolid-unique :
    (conf : Confirmations) (head total m n : ℕ)
    → IsSolid conf total head m
    → IsSolid conf total head n
    → m ≤ n
IsSolid-unique conf head total m n p q = elim (Bool-cases (leb m n)) [
  | inl small ↦ ground arith
  | inr big ↦ elim q.ends [
    | inl e ↦ absurd (omega (arith, p.below, large m n big))
    | inr gap ↦ absurd (clash (p.final (suc n) (omega arith) (large m n big)) gap)
  ]
]
  where
    large : (m n : ℕ) → leb m n ≡ false → n < m
    large m n h = ground arith

    clash : {b : Bool} → b ≡ true → b ≡ false → ⊥
    clash h k = cc
