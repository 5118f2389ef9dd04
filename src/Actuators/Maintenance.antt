-- ===== src/Actuators/Maintenance.antt =====
-- crates/actuators/src/maintenance.rs, with the active witnesses of crates/state/src/lib.rs: the votes
-- are counted and the witnesses that produce blocks are elected. A map from addresses to counts is an
-- association list.
pub mod Elects
pub mod Again
use tron_rs.Prelude.{
  ltb, ◌==◌, if◌then◌else◌, length, take, drop, keep_if, Bytes, bytes_eq, ℤ, pos, add_i64, ℕ, zero,
  suc, Bool, false, ◌&&◌, Option, none, some, List, [], ◌∷◌, ◌++◌, map,
}
use tron_rs.State.World.{World, Account, Witness, Cell, valid, corrupt, active_witnesses, tag}
use tron_rs.Consensus.Election.{sort_witnesses}

abbrev pub max_active_witnesses : ℕ
max_active_witnesses = 27

-- `*tally.entry(address).or_insert(0) += count`
unfoldable pub add_vote : List (Bytes × ℤ) → Bytes × ℤ → List (Bytes × ℤ)
add_vote [] vote = (vote.0, add_i64 (pos 0) vote.1) ∷ []
add_vote (entry ∷ tally) vote =
    let rest = add_vote tally vote in
    if bytes_eq entry.0 vote.0 then (entry.0, add_i64 entry.1 vote.1) ∷ tally else entry ∷ rest

unfoldable pub add_votes : List (Bytes × ℤ) → List (Bytes × ℤ) → List (Bytes × ℤ)
unfolding add_vote
add_votes tally [] = tally
add_votes tally (vote ∷ votes) = add_votes (add_vote tally vote) votes

unfoldable pub count_from : List (Bytes × ℤ) → List Account → List (Bytes × ℤ)
unfolding add_votes
count_from tally [] = tally
count_from tally (voter ∷ voters) = count_from (add_votes tally voter.votes) voters

unfoldable pub count_votes : List Account → List (Bytes × ℤ)
unfolding count_from
count_votes voters = count_from [] voters

-- `tally.get(addr).copied().unwrap_or(0)`
unfoldable pub tally_of : List (Bytes × ℤ) → Bytes → ℤ
tally_of [] addr = pos 0
tally_of (entry ∷ tally) addr = if bytes_eq entry.0 addr then entry.1 else tally_of tally addr

-- `active_set`, which is `sort_witnesses` cut off.
unfoldable pub active_set : List (Bytes × ℤ) → List Bytes
unfolding sort_witnesses
active_set witnesses = take max_active_witnesses (map (λ w. w.0) (sort_witnesses witnesses))

-- A record that is missing or refused is passed over.
unfoldable pub readable : {A : Type 0} → Option (Cell A) → Option A
readable none = none
readable (some (valid a)) = some a
readable (some corrupt) = none

-- `filter_map` of the reads of a column.
unfoldable pub read_all : {A : Type 0} → (Bytes → Option (Cell A)) → List Bytes → List A
unfolding readable
read_all column [] = []
read_all column (addr ∷ addrs) =
    let rest = read_all column addrs in
    elim (readable (column addr)) [ none ↦ rest | some a ↦ a ∷ rest ]

pub all_witnesses : World → List Bytes → List Witness
unfolding read_all
all_witnesses w addrs = read_all w.witnesses addrs

unfoldable pub voters_of : World → List Bytes → List Account
unfolding read_all
voters_of w addrs = read_all w.accounts addrs

-- Under the address that is asked for, whatever the record names.
unfoldable pub put_witness_at : Bytes → Witness → World → World
put_witness_at addr witness w = record w {
  witnesses = λ a. if bytes_eq addr a then some (valid witness) else w.witnesses a;
}

-- One witness: its new count is stored.
unfoldable pub with_count : List (Bytes × ℤ) → Bytes → Witness → Witness
unfolding tally_of
with_count tally addr witness = record witness {
  vote_count = add_i64 witness.vote_count (tally_of tally addr);
}

-- The world with the new counts, and the counts in the order of the addresses.
unfoldable pub apply_tally : List (Bytes × ℤ) → World → List Bytes → World × List (Bytes × ℤ)
unfolding readable with_count put_witness_at
apply_tally tally w [] = (w, [])
apply_tally tally w (addr ∷ addrs) = elim (readable (w.witnesses addr)) [
  | none ↦ apply_tally tally w addrs
  | some witness ↦
      let counted = with_count tally addr witness in
      let (w', scored) = apply_tally tally (put_witness_at addr counted w) addrs in
      (w', (addr, counted.vote_count) ∷ scored)
]

-- `<[u8; 21]>::try_from` and `Address::from_bytes`.
unfoldable pub is_address : Bytes → Bool
is_address [] = false
is_address (prefix ∷ body) = (length body == 20) && (prefix == 0x41)

unfoldable pub concat : List Bytes → Bytes
concat [] = []
concat (a ∷ addrs) = a ++ concat addrs

unfoldable pub put_active_witnesses : List Bytes → World → World
unfolding concat
put_active_witnesses addrs w = record w {
  props = λ k. if tag active_witnesses == tag k then some (concat addrs) else w.props k;
}

-- `chunks_exact(n)`, on fuel that the length of the bytes is enough for.
unfoldable pub chunks_exact : ℕ → ℕ → Bytes → List Bytes
chunks_exact zero n bytes = []
chunks_exact (suc fuel) n bytes =
    let rest = chunks_exact fuel n (drop n bytes) in
    if ltb (length bytes) n then [] else take n bytes ∷ rest

unfoldable pub get_active_witnesses : World → List Bytes
unfolding chunks_exact
get_active_witnesses w = elim (w.props active_witnesses) [
  | none ↦ []
  | some bytes ↦ chunks_exact (length bytes) 21 bytes
]

-- The candidates and the voters are given by their addresses. The result is the world after, and the
-- elected witnesses.
unfoldable pub run_maintenance : World → List Bytes → List Bytes → World × List Bytes
unfolding voters_of count_votes apply_tally active_set is_address put_active_witnesses
run_maintenance w witness_addrs voter_addrs =
    let (w', scored) = apply_tally (count_votes (voters_of w voter_addrs)) w witness_addrs in
    let elected = active_set scored in
    (put_active_witnesses (keep_if is_address elected) w', elected)
