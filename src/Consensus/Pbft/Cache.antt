-- ===== src/Consensus/Pbft/Cache.antt =====
-- The confirmation map of crates/consensus/src/pbft.rs: the gate, the count and the pruning.
use tron_rs.Prelude.{
  if◌then◌else◌, ℤ, pos, ◌+ℤ◌, ◌≤ℤ◌, ◌<ℤ◌, leb_ℤ, eqb_ℤ, +ℤ_parts, eqb_ℤ_iff, i64_max, ℕ, ◌+◌, ◌≡◌,
  ◌↔◌, Bool, true, Option, none, some, [], ◌∷◌, arith,
}
use tron_rs.Consensus.Pbft.{
  Confirmations, count_of, accept_pbft_message, prune_below_solidified, bump_count,
  record_confirmation,
}

-- `unwrap_or(0)` of a count.
abbrev pub or_zero : Option ℕ → ℕ
or_zero none = 0
or_zero (some c) = c

pub count_of-bump_count :
    (conf : Confirmations) (n k : ℤ)
    → count_of (bump_count conf n) k
      ≡ (if eqb_ℤ n k then some (or_zero (count_of conf n) + 1) else count_of conf k)
unfolding count_of bump_count
count_of-bump_count [] n k = ground arith
count_of-bump_count ((j, c) ∷ conf) n k =
    ground (arith, eqb_ℤ_iff j n, eqb_ℤ_iff j k, eqb_ℤ_iff n k, count_of-bump_count conf n k)

pub count_of-prune :
    (conf : Confirmations) (solidified k : ℤ)
    → count_of (prune_below_solidified conf solidified) k
      ≡ (if leb_ℤ solidified k then count_of conf k else none)
unfolding count_of prune_below_solidified
count_of-prune [] s k = ground arith
count_of-prune ((j, c) ∷ conf) s k = ground (arith, eqb_ℤ_iff j k, count_of-prune conf s k)

-- The gate lets a message through exactly when the feature is on and the block lies above the
-- solidified one and at most 1024 above the head, where the head is far from overflow.
pub accept_pbft_message_iff :
    (allow : Bool) (n head solidified : ℤ)
    → pos 0 ≤ℤ head
    → head +ℤ pos 1024 ≤ℤ i64_max
    → (accept_pbft_message allow n head solidified ≡ true)
      ↔ ((allow ≡ true) × (solidified <ℤ n) × (n ≤ℤ head +ℤ pos 1024))
unfolding accept_pbft_message
accept_pbft_message_iff allow n head s h0 h = ground (arith, +ℤ_parts head (pos 1024))

-- A dropped message leaves every count as it was; an accepted one raises the count of its own
-- block by one and leaves the others.
pub record_confirmation_counts :
    (conf : Confirmations) (allow : Bool) (n head solidified k : ℤ)
    → let (conf', accepted) = record_confirmation conf allow n head solidified in
      count_of conf' k ≡ (
        if accepted
        then (if eqb_ℤ n k then some (or_zero (count_of conf n) + 1) else count_of conf k)
        else count_of conf k)
unfolding record_confirmation
record_confirmation_counts conf allow n head s k = ground (arith, count_of-bump_count conf n k)
