-- ===== src/Actuators/Maintenance/Elects.antt =====
-- The set that crates/actuators/src/maintenance.rs elects, and where crates/state/src/lib.rs stores it.
use tron_rs.Prelude.{
  ltb, Bool-cases, length, take, keep_if, All, length-append, take-append, drop-append, Bytes, ℤ, ℕ,
  zero, suc, ◌≤◌, ◌≡◌, refl, ap, ◌∙◌, inl, inr, Bool, true, false, Option, none, some, List, [],
  ◌∷◌, ◌++◌, map, arith,
}
use tron_rs.State.World.{World, Witness}
use mathlib.Core.List.{Perm}
use tron_rs.Consensus.Election.{sort_witnesses, stays_before, insert_witness}
use tron_rs.Consensus.Election.Rank.{sort-perm, sort-IsRanked, IsRanked}
use tron_rs.Actuators.Maintenance.{
  run_maintenance, max_active_witnesses, count_votes, active_set, readable, voters_of, apply_tally,
  is_address, concat, put_active_witnesses, chunks_exact, get_active_witnesses, put_witness_at,
  with_count,
}

module _ {A : Type 0} (P : A → Type 0) where
  All-take : (n : ℕ) (xs : List A) → All P xs → All P (take n xs)
  All-take zero xs h = tt
  All-take (suc n) [] h = tt
  All-take (suc n) (x ∷ xs) h = (h.0, All-take n xs h.1)

keep_if-All :
    {A : Type 0} (p : A → Bool) (xs : List A) → All (λ x. p x ≡ true) xs → keep_if p xs ≡ xs
keep_if-All p [] h = refl
keep_if-All p (x ∷ xs) h = rw (h.0, keep_if-All p xs h.1) refl

abbrev Addresses : List Bytes → Type 0
Addresses = All (λ a. is_address a ≡ true)

abbrev Scores : List (Bytes × ℤ) → Type 0
Scores = All (λ s. is_address s.0 ≡ true)

insert_witness-Scores :
    (s : Bytes × ℤ) (scored : List (Bytes × ℤ))
    → is_address s.0 ≡ true
    → Scores scored
    → Scores (insert_witness s scored)
unfolding insert_witness
insert_witness-Scores s [] h k = (h, tt)
insert_witness-Scores s (t ∷ scored) h k = elim (Bool-cases (stays_before s t)) [
  | inl e ↦ rw e ((h, k))
  | inr e ↦ rw e ((k.0, insert_witness-Scores s scored h k.1))
]

sort_witnesses-Scores : (scored : List (Bytes × ℤ)) → Scores scored → Scores (sort_witnesses scored)
unfolding sort_witnesses
sort_witnesses-Scores [] h = tt
sort_witnesses-Scores (s ∷ scored) h =
    insert_witness-Scores s (sort_witnesses scored) h.0 (sort_witnesses-Scores scored h.1)

names-Addresses : (scored : List (Bytes × ℤ)) → Scores scored → Addresses (map (λ s. s.0) scored)
names-Addresses [] h = tt
names-Addresses (s ∷ scored) h = (h.0, names-Addresses scored h.1)

apply_tally-Scores :
    (tally : List (Bytes × ℤ)) (w : World) (addrs : List Bytes)
    → Addresses addrs
    → Scores (apply_tally tally w addrs).1
unfolding apply_tally
apply_tally-Scores tally w [] h = tt
apply_tally-Scores tally w (a ∷ addrs) h =
    go (λ v. apply_tally-Scores tally v addrs h.1) (readable (w.witnesses a)) refl
  where
    go :
        ((v : World) → Scores (apply_tally tally v addrs).1)
        → (r : Option Witness) → readable (w.witnesses a) ≡ r
        → Scores (apply_tally tally w (a ∷ addrs)).1
    go rest none e = rw (e, apply_tally) (rest w)
    go rest (some witness) e =
        rw (e, apply_tally) (h.0, rest (put_witness_at a (with_count tally a witness) w))

length-is_address : (a : Bytes) → is_address a ≡ true → length a ≡ 21
unfolding is_address
length-is_address [] h = ground arith
length-is_address (prefix ∷ body) h = ground (arith, h)

length-concat : (addrs : List Bytes) → Addresses addrs → length addrs ≤ length (concat addrs)
unfolding concat
length-concat [] h = omega arith
length-concat (a ∷ addrs) h =
    omega (arith, length-append a (concat addrs), length-is_address a h.0, length-concat addrs h.1)

chunks_exact-concat :
    (fuel : ℕ) (addrs : List Bytes)
    → Addresses addrs
    → length addrs ≤ fuel
    → chunks_exact fuel 21 (concat addrs) ≡ addrs
unfolding chunks_exact concat
chunks_exact-concat zero [] h le = refl
chunks_exact-concat zero (a ∷ addrs) h le = ground arith
chunks_exact-concat (suc fuel) [] h le = refl
chunks_exact-concat (suc fuel) (a ∷ addrs) h le =
    let size = length-is_address a h.0 in
    let long : ltb (length (a ++ concat addrs)) 21 ≡ false =
      ground (arith, size, length-append a (concat addrs)) in
    rw
      (
        long,
        take-append 21 a (concat addrs) size,
        drop-append 21 a (concat addrs) size,
        chunks_exact-concat fuel addrs h.1 (omega (arith, le)),
      )
      refl

get-put_active_witnesses :
    (addrs : List Bytes) (w : World)
    → Addresses addrs
    → get_active_witnesses (put_active_witnesses addrs w) ≡ addrs
unfolding get_active_witnesses put_active_witnesses
get-put_active_witnesses addrs w h =
    chunks_exact-concat (length (concat addrs)) addrs h (length-concat addrs h)

active_set-Addresses : (scored : List (Bytes × ℤ)) → Scores scored → Addresses (active_set scored)
unfolding active_set
active_set-Addresses scored h =
    All-take _ max_active_witnesses (map (λ s. s.0) (sort_witnesses scored))
      (names-Addresses (sort_witnesses scored) (sort_witnesses-Scores scored h))

-- When the candidates are addresses, the set that is elected is the one that is read back from the state
-- afterwards. It is made of the first 27 of a list of all the candidates that can be read, with their new
-- counts: there each stands before all that it beats.
pub run_maintenance-elects :
    (w : World) (witness_addrs voter_addrs : List Bytes)
    → All (λ a. is_address a ≡ true) witness_addrs
    → let (w', elected) = run_maintenance w witness_addrs voter_addrs in
      let tally = count_votes (voters_of w voter_addrs) in
      (get_active_witnesses w' ≡ elected)
      × ((ranked : List (Bytes × ℤ)) × ((elected ≡ take 27 (map (λ s. s.0) ranked))
            × Perm ranked (apply_tally tally w witness_addrs).1
            × IsRanked ranked))
unfolding run_maintenance active_set
run_maintenance-elects w witness_addrs voter_addrs h =
    let counted = apply_tally (count_votes (voters_of w voter_addrs)) w witness_addrs in
    let good =
      active_set-Addresses counted.1
        (apply_tally-Scores (count_votes (voters_of w voter_addrs)) w witness_addrs h) in
    (
      ap (λ addrs. get_active_witnesses (put_active_witnesses addrs counted.0))
            (keep_if-All is_address (active_set counted.1) good)
          ∙ get-put_active_witnesses (active_set counted.1) counted.0 good,
      (sort_witnesses counted.1, (refl, sort-perm counted.1, sort-IsRanked counted.1)),
    )
