-- ===== src/Consensus/Pbft/Quorum.antt =====
-- The threshold of crates/consensus/src/pbft.rs: any two quorums share an honest witness.
use tron_rs.Prelude.{ℕ, ◌+◌, ◌*◌, ◌≤◌, ◌<◌, ◌≡◌, refl, ◌↔◌, true, arith}
use tron_rs.Consensus.Pbft.{finality_threshold, default_threshold, is_finalized}

-- A count is final exactly when it is strictly more than two thirds of the witnesses.
pub is_finalized_iff :
    (confirmations total : ℕ)
    → (is_finalized confirmations total ≡ true) ↔ (2 * total < 3 * confirmations)
unfolding is_finalized finality_threshold
is_finalized_iff c total = ground arith

-- If two final counts come from the same `total` witnesses, of which at most `faulty` lie with
-- `3 * faulty < total`, more witnesses stand in both than are faulty. `both` is the number in
-- both quorums, and `either` the number in one of them at least.
pub quorums_intersect :
    (c d both either total faulty : ℕ)
    → is_finalized c total ≡ true
    → is_finalized d total ≡ true
    → c + d ≡ both + either
    → either ≤ total
    → 3 * faulty < total
    → faulty < both
quorums_intersect c d both either total faulty hc hd e le hf =
    omega (arith, (is_finalized_iff c total).0 hc, (is_finalized_iff d total).0 hd)

-- Honest witnesses alone reach the threshold when fewer than a third are faulty.
pub honest_quorum :
    (honest faulty total : ℕ)
    → honest + faulty ≡ total
    → 3 * faulty < total
    → is_finalized honest total ≡ true
honest_quorum honest faulty total e h = (is_finalized_iff honest total).1 (omega arith)

default_threshold-eq : default_threshold ≡ 19
unfolding default_threshold finality_threshold
default_threshold-eq = refl
