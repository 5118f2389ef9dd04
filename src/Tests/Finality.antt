-- ===== src/Tests/Finality.antt =====
-- The confirmations of crates/consensus/src/pbft.rs and crates/node/src/net.rs at concrete inputs.
use tron_rs.Prelude.{bytes_eq, pos, ◌+ℤ◌, ℕ, ◌<◌, ◌≡◌, refl, true, some, [], ◌∷◌, ◌++◌, arith}
use tron_rs.Crypto.{recover_address}
use tron_rs.Prelude.Endian.{i64_to_be, i64_from_be}
use tron_rs.Tests.Toy.{toy, zeros, witness, toy-IsSound}
use tron_rs.Consensus.Pbft.{Confirmations, is_finalized, solidified_block, accept_pbft_message}
use tron_rs.Consensus.Pbft.Commit.{PbftCommit, encode, decode, recover_signer}
use tron_rs.Consensus.Pbft.Quorum.{quorums_intersect}
use tron_rs.Consensus.Pbft.Solid.{IsSolid, solid_of, solidified_block-IsSolid}
use tron_rs.Node.Finality.{Handler, advance, on_pbft_commit, run_commits, contains, confirm}
use tron_rs.Node.Finality.Emit.{Committer, signed_commit, emit_commit, emit_commit-counted, TakenIn}
use tron_rs.Node.Finality.Stall.{finality_stalls}

-- The only active witness confirms the block.
abbrev commit_of : ℕ → PbftCommit
commit_of n = record { block_num = pos n; block_id = zeros 32; signature = 7 ∷ zeros 63 ++ 27 ∷ [] }

abbrev handler : Handler
handler = record {
  allow_pbft = pos 1;
  head = pos 3;
  active = witness ∷ [];
  solidified = pos 1;
  confirmations = (pos 1, witness ∷ []) ∷ (pos 2, []) ∷ [];
}

-- The commit of block 2 advances finality to it, and block 1 is pruned.
second_advances :
    on_pbft_commit toy handler (encode (commit_of 2))
    ≡ (record handler { solidified = pos 2; confirmations = (pos 2, witness ∷ []) ∷ [] }, true)
unfolding on_pbft_commit encode decode recover_signer solidified_block i64_to_be recover_address
    bytes_eq accept_pbft_message i64_from_be ◌+ℤ◌
second_advances = refl

finality_stalls_example :
    (run_commits toy
      (advance handler (some (pos 2)))
      ((pos 3, encode (commit_of 3)) ∷ [])).solidified
    ≡ pos 2
finality_stalls_example =
    finality_stalls toy handler (pos 2) ((pos 3, encode (commit_of 3)) ∷ []) (omega arith)
      (omega arith)

abbrev confirmations : Confirmations
confirmations = (pos 1, 19) ∷ (pos 2, 20) ∷ (pos 4, 27) ∷ []

solidified_block-IsSolid_example :
    (m : ℕ) × (solidified_block confirmations (pos 5) 27 ≡ solid_of m)
    × IsSolid confirmations 27 5 m
solidified_block-IsSolid_example = solidified_block-IsSolid confirmations 5 27

quorums_intersect_example : 8 < 11
unfolding is_finalized
quorums_intersect_example =
    quorums_intersect 19 19 11 27 27 8 refl refl refl (omega arith) (omega arith)

abbrev own_key : Committer
own_key = record { key = 7 ∷ []; address = witness }

-- The witness with the key [7] on a node of its own, and a peer that has not heard of block 2.
emit_commit-counted_example :
    (on_pbft_commit toy handler (encode (signed_commit toy own_key (pos 2) (zeros 32)))
      ≡ confirm handler (pos 2) witness)
    × TakenIn handler
        (pos 2)
        witness
        (on_pbft_commit toy handler (encode (signed_commit toy own_key (pos 2) (zeros 32))))
unfolding emit_commit contains bytes_eq accept_pbft_message ◌+ℤ◌
emit_commit-counted_example =
    emit_commit-counted toy handler handler own_key (pos 2) (zeros 32)
      (encode (signed_commit toy own_key (pos 2) (zeros 32))) toy-IsSound refl
      (omega arith, omega arith) refl refl refl refl refl
