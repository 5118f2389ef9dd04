-- ===== src/Tests/Chains.antt =====
-- crates/crypto, crates/chain and the forks of crates/consensus at concrete inputs.
use tron_rs.Prelude.{Bytes, pos, ◌≡◌, refl, ◌⊎◌, false, List, [], ◌∷◌, ◌++◌, map, reverse}
use tron_rs.Tests.Toy.{toy}
use tron_rs.Chain.Binding.{merkle_root-binds, Collision}
use tron_rs.Consensus.Fork.{
  Head, should_switch, should_switch_asymm, should_switch_total, compute_reorg, Diverge, last_id,
  shared,
}
use tron_rs.Consensus.Fork.Laws.{compute_reorg_correct}

abbrev leaves : List Bytes
leaves = map toy.sha256 ((1 ∷ []) ∷ (2 ∷ []) ∷ (3 ∷ []) ∷ [])

merkle_root-binds_example : (leaves ≡ leaves) ⊎ Collision toy.sha256
merkle_root-binds_example =
    merkle_root-binds toy.sha256 leaves leaves (λ x. refl) refl (refl, (refl, (refl, tt)))
      (refl, (refl, (refl, tt))) refl

abbrev chain_a : List Bytes
chain_a = (1 ∷ []) ∷ (2 ∷ []) ∷ (3 ∷ []) ∷ []

abbrev chain_b : List Bytes
chain_b = (1 ∷ []) ∷ (4 ∷ []) ∷ []

compute_reorg_correct_example :
    let r = compute_reorg chain_a chain_b in
    (shared chain_a chain_b ++ reverse r.revert ≡ chain_a)
    × (shared chain_a chain_b ++ r.apply ≡ chain_b)
    × (r.common_ancestor ≡ last_id (shared chain_a chain_b))
    × Diverge (reverse r.revert) r.apply
compute_reorg_correct_example = compute_reorg_correct chain_a chain_b

abbrev light : Head
light = record { number = pos 3; weight = 10 }

abbrev heavy : Head
heavy = record { number = pos 3; weight = 12 }

abbrev tall : Head
tall = record { number = pos 9; weight = 1 }

should_switch_asymm_example : should_switch tall heavy ≡ false
unfolding should_switch
should_switch_asymm_example = should_switch_asymm heavy tall refl

should_switch_total_example : heavy ≡ heavy
unfolding should_switch
should_switch_total_example = should_switch_total heavy heavy refl refl
