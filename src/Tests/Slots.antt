-- ===== src/Tests/Slots.antt =====
-- Slots, elections and rewards of crates/consensus at concrete inputs.
use tron_rs.Prelude.{Bytes, ℤ, pos, ◌≤ℤ◌, ◌≡◌, List, [], ◌∷◌, arith}
use tron_rs.Consensus.Election.{rank_witnesses}
use tron_rs.Consensus.Election.Rank.{rank_witnesses-perm}
use tron_rs.Consensus.Reward.{distribute_to_voters}
use tron_rs.Consensus.Reward.Laws.{Weights, paid, distribute_to_voters-le_pool}
use mathlib.Core.List.Perm

abbrev first : Bytes
first = 1 ∷ []

abbrev others : List Bytes
others = (2 ∷ []) ∷ (3 ∷ []) ∷ []

abbrev votes : List (Bytes × ℤ)
votes = (1 ∷ [], pos 5) ∷ (2 ∷ [], pos 9) ∷ (3 ∷ [], pos 5) ∷ []

abbrev swapped : List (Bytes × ℤ)
swapped = (2 ∷ [], pos 9) ∷ (1 ∷ [], pos 5) ∷ (3 ∷ [], pos 5) ∷ []

rank_witnesses-perm_example : rank_witnesses votes ≡ rank_witnesses swapped
rank_witnesses-perm_example =
    rank_witnesses-perm votes swapped
      (Perm.swap (2 ∷ [], pos 9) (1 ∷ [], pos 5) ((3 ∷ [], pos 5) ∷ []))

distribute_to_voters-le_pool_example :
    (paid (distribute_to_voters (pos 100) votes) ≤ℤ pos 100)
    × Weights (distribute_to_voters (pos 100) votes)
distribute_to_voters-le_pool_example =
    distribute_to_voters-le_pool 100 votes (omega arith)
      (omega arith, (omega arith, (omega arith, tt)))
