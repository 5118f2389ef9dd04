-- ===== src/Consensus/Fork/Laws.antt =====
-- What `compute_reorg` of crates/consensus/src/fork.rs promises to the chain manager.
use tron_rs.Prelude.{
  ◌==◌, if◌then◌else◌, take-append-drop, Bytes, ◌-◌, ◌≡◌, refl, List, [], ◌∷◌, ◌++◌, reverse, arith,
}
use mathlib.Core.List.{reverse-reverse}
use tron_rs.Consensus.Fork.{
  fork_index, compute_reorg, id_at, take-fork_index, drop-fork_index, Diverge, last_id, shared,
}

last_id-take :
    (ours theirs : List Bytes)
    → (if fork_index ours theirs == 0 then [] else id_at ours (fork_index ours theirs - 1))
      ≡ last_id (shared ours theirs)
unfolding fork_index id_at
last_id-take [] theirs = refl
last_id-take (x ∷ ours) [] = refl
last_id-take (x ∷ []) (y ∷ theirs) = ground arith
last_id-take (x ∷ x' ∷ ours) (y ∷ []) = ground arith
last_id-take (x ∷ x' ∷ ours) (y ∷ y' ∷ theirs) =
    ground (arith, last_id-take (x' ∷ ours) (y' ∷ theirs))

-- The blocks to roll back, read oldest first, follow the shared blocks on our chain, and the
-- blocks to apply follow the same shared blocks on their chain; the common ancestor is the last
-- shared block (empty if there is none); and no further block is shared.
pub compute_reorg_correct :
    (ours theirs : List Bytes)
    → let r = compute_reorg ours theirs in
      (shared ours theirs ++ reverse r.revert ≡ ours)
      × (shared ours theirs ++ r.apply ≡ theirs)
      × (r.common_ancestor ≡ last_id (shared ours theirs))
      × Diverge (reverse r.revert) r.apply
unfolding compute_reorg
compute_reorg_correct ours theirs = (
  rw reverse-reverse (take-append-drop (fork_index ours theirs) ours),
  rw (take-fork_index ours theirs) (take-append-drop (fork_index ours theirs) theirs),
  last_id-take ours theirs,
  rw reverse-reverse (drop-fork_index ours theirs),
)
