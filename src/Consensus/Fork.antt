-- ===== src/Consensus/Fork.antt =====
-- crates/consensus/src/fork.rs: the choice of the canonical head, and the reorganisation that
-- takes our chain to a competing one. A block id is its bytes.
pub mod Laws
use tron_rs.Prelude.{
  ltb, ◌==◌, if◌then◌else◌, get_elem?, take, drop, Bytes, bytes_eq, ℤ, ltb_ℤ, eq_of_parts, ℕ, suc,
  ◌-◌, ◌≡◌, refl, ◌≢◌, Bool, true, false, none, some, List, [], ◌∷◌, reverse, arith,
}
use tron_rs.Prelude.Endian.{bytes_eq_iff}

-- `number` is an i64, `weight` a u64.
pub record Head : Type 0 where
  pub number : ℤ
  pub weight : ℕ

unfoldable pub should_switch : Head → Head → Bool
should_switch current candidate =
    if ltb_ℤ current.number candidate.number
    then true
    else if ltb_ℤ candidate.number current.number
    then false
    else ltb current.weight candidate.weight

-- A head never replaces itself, and of two heads at most one replaces the other.
pub should_switch_asymm : (a b : Head) → should_switch a b ≡ true → should_switch b a ≡ false
unfolding should_switch
should_switch_asymm a b h = ground arith

-- If a second head replaces a first, and a third replaces the second, then the third replaces the
-- first.
pub should_switch_trans :
    (a b c : Head) → should_switch a b ≡ true → should_switch b c ≡ true → should_switch a c ≡ true
unfolding should_switch
should_switch_trans a b c h k = ground arith

pub should_switch_total :
    (a b : Head) → should_switch a b ≡ false → should_switch b a ≡ false → a ≡ b
unfolding should_switch
should_switch_total a b h k = ground (arith, eq_of_parts a.number b.number)

-- The `while` loop of `compute_reorg`: the index of the first block where the chains differ.
unfoldable pub fork_index : List Bytes → List Bytes → ℕ
fork_index [] theirs = 0
fork_index (x ∷ ours) [] = 0
fork_index (x ∷ ours) (y ∷ theirs) = if bytes_eq x y then suc (fork_index ours theirs) else 0

pub record Reorg : Type 0 where
  pub common_ancestor : Bytes
  pub revert : List Bytes
  pub apply : List Bytes

-- `ours[i]`, and an empty id out of range.
pub id_at : List Bytes → ℕ → Bytes
id_at chain i = elim (get_elem? chain i) [ none ↦ [] | some id ↦ id ]

pub compute_reorg : List Bytes → List Bytes → Reorg
unfolding id_at
compute_reorg ours theirs =
    let fork = fork_index ours theirs in
    record {
      common_ancestor = if fork == 0 then [] else id_at ours (fork - 1);
      revert = reverse (drop fork ours);
      apply = drop fork theirs;
    }

-- The chains agree below the fork.
take-fork_index :
    (ours theirs : List Bytes)
    → take (fork_index ours theirs) ours ≡ take (fork_index ours theirs) theirs
unfolding fork_index
take-fork_index [] theirs = refl
take-fork_index (x ∷ ours) [] = refl
take-fork_index (x ∷ ours) (y ∷ theirs) =
    ground (arith, bytes_eq_iff x y, take-fork_index ours theirs)

-- At the fork the chains differ, or one of them has ended.
abbrev pub Diverge : List Bytes → List Bytes → Type 0
Diverge (x ∷ xs) (y ∷ ys) = x ≢ y
Diverge _ _ = Unit

drop-fork_index :
    (ours theirs : List Bytes)
    → Diverge (drop (fork_index ours theirs) ours) (drop (fork_index ours theirs) theirs)
unfolding fork_index
drop-fork_index [] [] = tt
drop-fork_index [] (y ∷ theirs) = tt
drop-fork_index (x ∷ ours) [] = tt
drop-fork_index (x ∷ ours) (y ∷ theirs) =
    ground (arith, bytes_eq_iff x y, drop-fork_index ours theirs)

-- The last id of a chain, empty if the chain is.
abbrev pub last_id : List Bytes → Bytes
last_id [] = []
last_id (x ∷ []) = x
last_id (x ∷ y ∷ xs) = last_id (y ∷ xs)

-- The blocks that the two chains share.
abbrev pub shared : List Bytes → List Bytes → List Bytes
shared ours theirs = take (fork_index ours theirs) ours
