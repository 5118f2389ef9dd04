-- ===== src/Consensus/Pbft.antt =====
-- crates/consensus/src/pbft.rs: the finality threshold, the solidified block, and the intake gate
-- of confirmations. The `HashMap<i64, usize>` is an association list keyed by the block number.
pub mod Commit
pub mod Quorum
pub mod Solid
pub mod Cache
use tron_rs.Prelude.{
  leb, if◌then◌else◌, ℤ, pos, pos_part, ◌+ℤ◌, ltb_ℤ, leb_ℤ, eqb_ℤ, saturating, ℕ, zero, suc, ◌+◌,
  ◌*◌, ◌/◌, Bool, true, false, ◌&&◌, Option, none, some, List, [], ◌∷◌,
}

abbrev pub max_active_witnesses : ℕ
max_active_witnesses = 27

pub finality_threshold : ℕ → ℕ
finality_threshold total = 2 * total / 3 + 1

pub default_threshold : ℕ
default_threshold = finality_threshold max_active_witnesses

unfoldable pub is_finalized : ℕ → ℕ → Bool
unfolding finality_threshold
is_finalized confirmations total_srs = leb (finality_threshold total_srs) confirmations

abbrev pub Confirmations : Type 0
Confirmations = List (ℤ × ℕ)

-- `confirmations.get(&n)`
unfoldable pub count_of : Confirmations → ℤ → Option ℕ
count_of [] n = none
count_of ((k, c) ∷ conf) n = if eqb_ℤ k n then some c else count_of conf n

-- `Some(&c) if is_finalized(c, total_srs)`
unfoldable pub final_at : Confirmations → ℕ → ℤ → Bool
unfolding is_finalized count_of
final_at conf total_srs n = elim (count_of conf n) [
  | none ↦ false
  | some c ↦ is_finalized c total_srs
]

-- The `while` loop: `rounds` bounds its number of rounds, `n` and `solid` are its variables.
unfoldable pub solid_from : ℕ → Confirmations → ℤ → ℕ → ℤ → Option ℤ → Option ℤ
unfolding final_at
solid_from zero conf head total_srs n solid = solid
solid_from (suc rounds) conf head total_srs n solid =
    let rest = solid_from rounds conf head total_srs (n +ℤ pos 1) (some n) in
    if leb_ℤ n head then (if final_at conf total_srs n then rest else solid) else solid

-- The loop runs from 1 to `head`, so `head` rounds are enough.
unfoldable pub solidified_block : Confirmations → ℤ → ℕ → Option ℤ
unfolding solid_from
solidified_block conf head total_srs = solid_from (pos_part head) conf head total_srs (pos 1) none

abbrev pub max_pbft_future_blocks : ℤ
max_pbft_future_blocks = pos 1024

unfoldable pub accept_pbft_message : Bool → ℤ → ℤ → ℤ → Bool
accept_pbft_message allow_pbft block_num head solidified =
    allow_pbft
    && ltb_ℤ solidified block_num
    && leb_ℤ block_num (saturating (head +ℤ max_pbft_future_blocks))

-- `confirmations.retain(|&block, _| block >= solidified)`
unfoldable pub prune_below_solidified : Confirmations → ℤ → Confirmations
prune_below_solidified [] solidified = []
prune_below_solidified ((k, c) ∷ conf) solidified =
    let rest = prune_below_solidified conf solidified in
    if leb_ℤ solidified k then (k, c) ∷ rest else rest

-- `*confirmations.entry(block_num).or_insert(0) += 1`
unfoldable pub bump_count : Confirmations → ℤ → Confirmations
bump_count [] n = (n, 1) ∷ []
bump_count ((k, c) ∷ conf) n = if eqb_ℤ k n then (k, c + 1) ∷ conf else (k, c) ∷ bump_count conf n

unfoldable pub record_confirmation : Confirmations → Bool → ℤ → ℤ → ℤ → Confirmations × Bool
unfolding accept_pbft_message bump_count
record_confirmation conf allow_pbft block_num head solidified =
    if accept_pbft_message allow_pbft block_num head solidified
    then (bump_count conf block_num, true)
    else (conf, false)
