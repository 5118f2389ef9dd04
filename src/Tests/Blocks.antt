-- ===== src/Tests/Blocks.antt =====
-- The producer and the gate of crates/consensus at a concrete block.
use tron_rs.Prelude.{Bytes, bytes_eq, pos, ◌≡◌, refl, true, [], ◌∷◌, arith}
use tron_rs.Tests.Toy.{env, toy-IsSound, tx₁, tx₂, witness, bare}
use tron_rs.Consensus.Validation.{is_active}
use tron_rs.Consensus.Validation.Gate.{IsSealed, validate_block_intake_sound}
use tron_rs.Consensus.Producer.{produce_block, parent_number}
use tron_rs.Consensus.Producer.Accepts.{produce_block-passes}
use tron_rs.Chain.{Block}

abbrev block : Block
block = produce_block env bare (7 ∷ []) (pos 3000) (tx₁ ∷ tx₂ ∷ []) (pos 1)

validate_block_intake_sound_example :
    (producer : Bytes) × IsSealed env block producer × (is_active (witness ∷ []) producer ≡ true)
unfolding parent_number is_active bytes_eq
validate_block_intake_sound_example = validate_block_intake_sound env block (witness ∷ []) (
    produce_block-passes env bare (7 ∷ []) (pos 3000) (tx₁ ∷ tx₂ ∷ []) (pos 1) (witness ∷ [])
      toy-IsSound (omega arith, omega arith) refl)
