-- ===== src/Actuators/Maintenance/Again.antt =====
-- The votes that crates/actuators/src/maintenance.rs counts from one cycle to the next.
use tron_rs.Prelude.Endian.{bytes_eq_iff}
use mathlib.Core.Path.{subst}
use tron_rs.Prelude.{
  if◌then◌else◌, Bool-cases, Bytes, bytes_eq, ℤ, pos, int_laws, add_i64-in, ℕ, zero, suc, ◌+◌, ◌*◌,
  ◌^◌, ◌<◌, ◌≡◌, refl, sym, ap, ◌∙◌, ◌⊎◌, inl, inr, true, false, Option, none, some, List, [], ◌∷◌,
  arith,
}
use tron_rs.State.World.{World, Witness, valid, Cell, corrupt}
use tron_rs.Actuators.Maintenance.{
  run_maintenance, tally_of, with_count, apply_tally, readable, put_witness_at, voters_of,
  count_votes, read_all, put_active_witnesses,
}

-- How often an address is listed.
abbrev pub listed : Bytes → List Bytes → ℕ
listed addr [] = 0
listed addr (a ∷ addrs) = let rest = listed addr addrs in if bytes_eq a addr then suc rest else rest

abbrev pub counting : Witness → ℕ → Witness
counting witness m = record witness { vote_count = pos m }

-- The world after so many cycles.
abbrev pub cycles : ℕ → World → List Bytes → List Bytes → World
cycles zero w witness_addrs voter_addrs = w
cycles (suc n) w witness_addrs voter_addrs =
    (run_maintenance (cycles n w witness_addrs voter_addrs) witness_addrs voter_addrs).0

with_count-counting :
    (tally : List (Bytes × ℤ)) (addr : Bytes) (witness : Witness) (m k : ℕ)
    → tally_of tally addr ≡ pos k
    → m + k < 2 ^ 63
    → with_count tally addr (counting witness m) ≡ counting witness (m + k)
unfolding with_count
with_count-counting tally addr witness m k t room = rw t (
    ap (λ v. record witness { vote_count = v })
      (add_i64-in (pos m) (pos k) (omega int_laws) ∙ (omega int_laws)))

-- A witness that can be read is counted, and one that cannot is passed over.
apply_tally-here :
    (tally : List (Bytes × ℤ)) (w : World) (a : Bytes) (addrs : List Bytes) (witness : Witness)
    → w.witnesses a ≡ some (valid witness)
    → (apply_tally tally w (a ∷ addrs)).0
      ≡ (apply_tally tally (put_witness_at a (with_count tally a witness) w) addrs).0
unfolding apply_tally
apply_tally-here tally w a addrs witness e = rw (e, apply_tally) refl

apply_tally-cases :
    (tally : List (Bytes × ℤ)) (w : World) (a : Bytes) (addrs : List Bytes)
    → ((apply_tally tally w (a ∷ addrs)).0 ≡ (apply_tally tally w addrs).0)
      ⊎ ((witness : Witness) × ((apply_tally tally w (a ∷ addrs)).0
            ≡ (apply_tally tally (put_witness_at a (with_count tally a witness) w) addrs).0))
unfolding apply_tally readable
apply_tally-cases tally w a addrs = go (w.witnesses a) refl
  where
    go :
        (r : Option (Cell Witness))
        → w.witnesses a ≡ r
        → ((apply_tally tally w (a ∷ addrs)).0 ≡ (apply_tally tally w addrs).0)
          ⊎ ((witness : Witness) × ((apply_tally tally w (a ∷ addrs)).0
                ≡ (apply_tally tally (put_witness_at a (with_count tally a witness) w) addrs).0))
    go none e = inl (rw (e, apply_tally) refl)
    go (some (valid witness)) e = inr (witness, rw (e, apply_tally) refl)
    go (some corrupt) e = inl (rw (e, apply_tally) refl)

put_witness_at-same :
    (a addr : Bytes) (witness : Witness) (w : World)
    → bytes_eq a addr ≡ true
    → (put_witness_at a witness w).witnesses addr ≡ some (valid witness)
unfolding put_witness_at
put_witness_at-same a addr witness w e = rw e refl

put_witness_at-other :
    (a addr : Bytes) (witness : Witness) (w : World)
    → bytes_eq a addr ≡ false
    → (put_witness_at a witness w).witnesses addr ≡ w.witnesses addr
unfolding put_witness_at
put_witness_at-other a addr witness w e = rw e refl

apply_tally-counting :
    (tally : List (Bytes × ℤ)) (w : World) (addrs : List Bytes) (addr : Bytes) (witness : Witness)
    (m k : ℕ)
    → w.witnesses addr ≡ some (valid (counting witness m))
    → tally_of tally addr ≡ pos k
    → m + listed addr addrs * k < 2 ^ 63
    → (apply_tally tally w addrs).0.witnesses addr
      ≡ some (valid (counting witness (m + listed addr addrs * k)))
unfolding apply_tally
apply_tally-counting tally w [] addr witness m k found t room =
    let e : m ≡ m + 0 * k = omega arith in
    subst (λ n. w.witnesses addr ≡ some (valid (counting witness n))) e found
apply_tally-counting tally w (a ∷ addrs) addr witness m k found t room =
    elim (Bool-cases (bytes_eq a addr)) [
      | inl e ↦
          let here = (bytes_eq_iff a addr).0 e in
          let found_a =
            subst (λ x. w.witnesses x ≡ some (valid (counting witness m))) (sym here) found in
          let t_a = subst (λ x. tally_of tally x ≡ pos k) (sym here) t in
          let more : m + suc (listed addr addrs) * k ≡ (m + k) + listed addr addrs * k =
            omega arith in
          let room₁ : (m + k) + listed addr addrs * k < 2 ^ 63 = ground (arith, e, room, more) in
          let counted = with_count-counting tally a witness m k t_a (omega (arith, room₁)) in
          let w₁ = put_witness_at a (with_count tally a (counting witness m)) w in
          let stored =
            put_witness_at-same a addr (with_count tally a (counting witness m)) w e
            ∙ ap (λ x. some (valid x)) counted in
          let rest = apply_tally-counting tally w₁ addrs addr witness (m + k) k stored t room₁ in
          ap (λ v. v.witnesses addr) (apply_tally-here tally w a addrs (counting witness m) found_a)
          ∙ rest
          ∙ rw (e, more) refl
      | inr e ↦
          let room₁ : m + listed addr addrs * k < 2 ^ 63 = ground (arith, e, room) in
          rw e (elim (apply_tally-cases tally w a addrs) [
            | inl s ↦
                ap (λ v. v.witnesses addr) s
                ∙ apply_tally-counting tally w addrs addr witness m k found t room₁
            | inr (x, s) ↦
                ap (λ v. v.witnesses addr) s
                ∙ apply_tally-counting tally (put_witness_at a (with_count tally a x) w) addrs addr
                    witness m k (put_witness_at-other a addr (with_count tally a x) w e ∙ found) t
                    room₁
          ])
    ]

accounts-apply_tally :
    (tally : List (Bytes × ℤ)) (w : World) (addrs : List Bytes)
    → (apply_tally tally w addrs).0.accounts ≡ w.accounts
unfolding apply_tally put_witness_at
accounts-apply_tally tally w [] = refl
accounts-apply_tally tally w (a ∷ addrs) = elim (apply_tally-cases tally w a addrs) [
  | inl s ↦ ap (λ (v : World). v.accounts) s ∙ accounts-apply_tally tally w addrs
  | inr (x, s) ↦
      ap (λ (v : World). v.accounts) s
      ∙ accounts-apply_tally tally (put_witness_at a (with_count tally a x) w) addrs
]

voters_of-same :
    (v w : World) (addrs : List Bytes)
    → v.accounts ≡ w.accounts
    → voters_of v addrs ≡ voters_of w addrs
unfolding voters_of
voters_of-same v w addrs e = ap (λ column. read_all column addrs) e

-- One cycle, on the world's two columns.
maintenance_columns :
    (w : World) (witness_addrs voter_addrs : List Bytes)
    → let w' = (run_maintenance w witness_addrs voter_addrs).0 in
      let counted = (apply_tally (count_votes (voters_of w voter_addrs)) w witness_addrs).0 in
      (w'.witnesses ≡ counted.witnesses) × (w'.accounts ≡ counted.accounts)
unfolding run_maintenance put_active_witnesses
maintenance_columns w witness_addrs voter_addrs = (refl, refl)

accounts-cycles :
    (n : ℕ) (w : World) (witness_addrs voter_addrs : List Bytes)
    → (cycles n w witness_addrs voter_addrs).accounts ≡ w.accounts
accounts-cycles zero w witness_addrs voter_addrs = refl
accounts-cycles (suc n) w witness_addrs voter_addrs =
    let v = cycles n w witness_addrs voter_addrs in
    (maintenance_columns v witness_addrs voter_addrs).1
    ∙ accounts-apply_tally (count_votes (voters_of v voter_addrs)) v witness_addrs
    ∙ accounts-cycles n w witness_addrs voter_addrs

-- The same votes are counted anew in every cycle: a witness that is listed once among the candidates,
-- has m votes to begin with and gets k from the voters, has m + n · k after n cycles, though no voter has
-- changed a vote in between. Listed more often, it gets the k votes that often in every cycle. The sum
-- stays below the last i64.
pub cycles_count_again :
    (n : ℕ) (w : World) (witness_addrs voter_addrs : List Bytes) (addr : Bytes) (witness : Witness)
    (m k : ℕ)
    → w.witnesses addr ≡ some (valid (counting witness m))
    → tally_of (count_votes (voters_of w voter_addrs)) addr ≡ pos k
    → m + n * (listed addr witness_addrs * k) < 2 ^ 63
    → (cycles n w witness_addrs voter_addrs).witnesses addr
      ≡ some (valid (counting witness (m + n * (listed addr witness_addrs * k))))
cycles_count_again zero w witness_addrs voter_addrs addr witness m k found t room =
    let e : m ≡ m + 0 * (listed addr witness_addrs * k) = omega arith in
    subst (λ x. w.witnesses addr ≡ some (valid (counting witness x))) e found
cycles_count_again (suc n) w witness_addrs voter_addrs addr witness m k found t room =
    let v = cycles n w witness_addrs voter_addrs in
    let each = listed addr witness_addrs * k in
    let more : (m + n * each) + each ≡ m + suc n * each = omega arith in
    let before =
      cycles_count_again n w witness_addrs voter_addrs addr witness m k found t
        (omega (arith, room, more)) in
    let same = voters_of-same v w voter_addrs (accounts-cycles n w witness_addrs voter_addrs) in
    let t' = ap (λ voters. tally_of (count_votes voters) addr) same ∙ t in
    ap (λ column. column addr) (maintenance_columns v witness_addrs voter_addrs).0
    ∙ apply_tally-counting (count_votes (voters_of v voter_addrs)) v witness_addrs addr witness
        (m + n * each) k before t' (omega (arith, room, more))
    ∙ ap (λ x. some (valid (counting witness x))) more
