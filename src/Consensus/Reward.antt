-- ===== src/Consensus/Reward.antt =====
-- crates/consensus/src/reward.rs: the split of a block reward between a witness and its voters.
pub mod Laws
use tron_rs.Prelude.{
  if◌then◌else◌, Bytes, ℤ, pos, ◌+ℤ◌, ◌*ℤ◌, quot_ℤ, ltb_ℤ, leb_ℤ, saturating, wrap_i64, sub_i64,
  ◌||◌, List, [], ◌∷◌, map,
}

abbrev pub default_brokerage : ℤ
default_brokerage = pos 20

abbrev pub witness_pay_per_block_sun : ℤ
witness_pay_per_block_sun = pos 32_000_000

-- `clamp(0, 100)`
abbrev pub clamp_percent : ℤ → ℤ
clamp_percent b = if ltb_ℤ b (pos 0) then pos 0 else if ltb_ℤ (pos 100) b then pos 100 else b

unfoldable pub split_reward : ℤ → ℤ → ℤ × ℤ
split_reward value brokerage =
    let witness_cut = quot_ℤ (saturating (value *ℤ clamp_percent brokerage)) (pos 100) in
    (witness_cut, sub_i64 value witness_cut)

-- The sum of the weights, as an i128.
unfoldable pub total_votes : List (Bytes × ℤ) → ℤ
total_votes [] = pos 0
total_votes ((_, w) ∷ votes) = w +ℤ total_votes votes

-- `(pool as i128 * weight as i128 / total) as i64`
unfoldable pub share : ℤ → ℤ → ℤ → ℤ
share pool weight total = wrap_i64 (quot_ℤ (pool *ℤ weight) total)

unfoldable pub distribute_to_voters : ℤ → List (Bytes × ℤ) → List (Bytes × ℤ)
unfolding total_votes share
distribute_to_voters pool votes =
    let total = total_votes votes in
    if leb_ℤ total (pos 0) || leb_ℤ pool (pos 0)
    then map (λ v. (v.0, pos 0)) votes
    else map (λ v. (v.0, share pool v.1 total)) votes
