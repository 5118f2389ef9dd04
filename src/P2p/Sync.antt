-- ===== src/P2p/Sync.antt =====
-- crates/p2p/src/sync.rs: which of the blocks that a peer offers are fetched.
use tron_rs.Prelude.{take, keep_if, ℤ, ltb_ℤ, ℕ, Bool, List}

abbrev pub max_fetch_per_round : ℕ
max_fetch_per_round = 2000

unfoldable pub blocks_to_fetch : ℤ → List ℤ → List ℤ
blocks_to_fetch our_head peer_inventory =
    take max_fetch_per_round (keep_if (λ n. ltb_ℤ our_head n) peer_inventory)

unfoldable pub peer_is_ahead : ℤ → ℤ → Bool
peer_is_ahead our_head peer_head = ltb_ℤ our_head peer_head
