-- ===== src/Tests/Election.antt =====
-- The witnesses and the maintenance of crates/actuators/src/witness.rs and maintenance.rs at concrete
-- inputs.
use tron_rs.Prelude.{
  if◌then◌else◌, take, Bytes, bytes_eq, ℤ, pos, ◌+ℤ◌, wrap_i64, add_i64, ok, err, ◌≡◌, refl, true,
  none, some, List, [], ◌∷◌, map, arith,
}
use tron_rs.Tests.Toy.{zeros, blank_world, blank_account, blank_witness}
use tron_rs.State.World.{World, Account, valid, get_account}
use tron_rs.Consensus.Election.{stays_before, insert_witness}
use tron_rs.Consensus.Election.Rank.{IsRanked}
use mathlib.Core.List.{Perm}
use tron_rs.Actuators.{witness_has_existed}
use tron_rs.Actuators
use tron_rs.Actuators.Transfer.Exact.{burnt}
use tron_rs.Actuators.Candidate.{get_witness}
use tron_rs.Actuators.Candidate.Register.{WitnessCreateContract, execute, validate}
use tron_rs.Actuators.Candidate.Lifecycle.{register_once, registered}
use tron_rs.Actuators.Maintenance.{
  run_maintenance, count_votes, voters_of, apply_tally, get_active_witnesses, tally_of, is_address,
}
use tron_rs.Actuators.Maintenance.Again.{cycles, cycles_count_again}
use tron_rs.Actuators.Maintenance.Elects.{run_maintenance-elects}

abbrev alice : Bytes
alice = 0x41 ∷ 1 ∷ zeros 19

abbrev bob : Bytes
bob = 0x41 ∷ 2 ∷ zeros 19

abbrev carol : Bytes
carol = 0x41 ∷ 3 ∷ zeros 19

abbrev carols : Account
carols = record blank_account { address = carol; votes = (bob, pos 7) ∷ (alice, pos 2) ∷ [] }

abbrev alices : Account
alices = record blank_account { address = alice; balance = pos 10_000_000_000 }

-- Two candidates, of whom alice has 4 votes, and a voter.
abbrev voting : World
voting = record blank_world {
  accounts = λ a.
      if bytes_eq a carol
      then some (valid carols)
      else if bytes_eq a alice
      then some (valid alices)
      else none;
  witnesses = λ a.
      if bytes_eq a alice
      then some (valid (record blank_witness { address = alice; vote_count = pos 4 }))
      else if bytes_eq a bob
      then some (valid (record blank_witness { address = bob }))
      else none;
}

abbrev candidates : List Bytes
candidates = alice ∷ bob ∷ []

-- Bob has 7 votes, alice 4 + 2.
elected_order : (run_maintenance voting candidates (carol ∷ [])).1 ≡ bob ∷ alice ∷ []
unfolding run_maintenance bytes_eq insert_witness stays_before add_i64 wrap_i64 ◌+ℤ◌
elected_order = refl

run_maintenance-elects_example :
    let (w', elected) = run_maintenance voting candidates (carol ∷ []) in
    let tally = count_votes (voters_of voting (carol ∷ [])) in
    (get_active_witnesses w' ≡ elected)
    × ((ranked : List (Bytes × ℤ)) × ((elected ≡ take 27 (map (λ s. s.0) ranked))
          × Perm ranked (apply_tally tally voting candidates).1
          × IsRanked ranked))
unfolding is_address
run_maintenance-elects_example =
    run_maintenance-elects voting candidates (carol ∷ []) (refl, (refl, tt))

cycles_count_again_example :
    (cycles 3 voting candidates (carol ∷ [])).witnesses bob
    ≡ some (valid (record blank_witness { address = bob; vote_count = pos 21 }))
unfolding bytes_eq tally_of count_votes voters_of add_i64 wrap_i64 ◌+ℤ◌
cycles_count_again_example =
    cycles_count_again 3 voting candidates (carol ∷ []) bob (record blank_witness { address = bob })
      0 7 refl refl (omega arith)

abbrev registration : WitnessCreateContract
registration = record { owner_address = alice; url = 104 ∷ 105 ∷ [] }

abbrev unregistered : World
unregistered = record voting { witnesses = λ a. none }

register_once_example :
    let w' = (execute (λ t. t) unregistered registration).0 in
    ((execute (λ t. t) unregistered registration).1 ≡ ok (pos 9_999_000_000))
    × ((a : Bytes)
        → get_account w' a ≡ (
            if bytes_eq alice a
            then ok (some (registered alices (pos 9_999_000_000)))
            else get_account unregistered a))
    × (burnt w' ≡ burnt unregistered +ℤ pos 9_999_000_000)
    × (get_witness w' alice
        ≡ ok (
            some (record {
              address = alice;
              vote_count = pos 0;
              url = 104 ∷ 105 ∷ [];
              is_jobs = true;
            })))
    × (validate w' registration ≡ err (Actuators.validate witness_has_existed))
unfolding get_account bytes_eq validate ◌+ℤ◌
register_once_example =
    register_once (λ t. t) unregistered registration (pos 9_999_000_000) alices refl refl
      (omega arith) (omega arith, omega arith)
