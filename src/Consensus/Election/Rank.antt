-- ===== src/Consensus/Election/Rank.antt =====
-- The ranking of crates/consensus/src/election.rs does not depend on the order of its input.
use tron_rs.Prelude.{
  Bool-cases, All, Bytes, ℤ, ◌≡◌, refl, ap, ◌∙◌, inl, inr, true, List, [], ◌∷◌, map, arith,
}
use mathlib.Core.List.{Perm, Permᴰ}
use mathlib.Core.List.Perm
use mathlib.Core.Logic.{∥∥₁_elim}
use tron_rs.Consensus.Election.{stays_before, insert_witness, sort_witnesses, rank_witnesses}
use tron_rs.Consensus.Election.Order.{stays_before_total, stays_before_antisym, stays_before_trans}

insert_comm :
    (a b : Bytes × ℤ) (ws : List (Bytes × ℤ))
    → insert_witness a (insert_witness b ws) ≡ insert_witness b (insert_witness a ws)
unfolding insert_witness
insert_comm a b [] = ground (arith, stays_before_total a b, stays_before_antisym a b)
insert_comm a b (w ∷ ws) = ground (
  arith,
  stays_before_total a b,
  stays_before_antisym a b,
  stays_before_total a w,
  stays_before_total b w,
  stays_before_trans a b w,
  stays_before_trans b a w,
  stays_before_trans a w b,
  stays_before_trans b w a,
  insert_comm a b ws,
)

insert-perm : (w : Bytes × ℤ) (ws : List (Bytes × ℤ)) → Perm (insert_witness w ws) (w ∷ ws)
unfolding insert_witness
insert-perm w [] = Perm.refl (w ∷ [])
insert-perm w (v ∷ ws) = elim (Bool-cases (stays_before w v)) [
  | inl first ↦ rw first (Perm.refl (w ∷ v ∷ ws))
  | inr later ↦ rw later (Perm.trans (Perm.cons v (insert-perm w ws)) (Perm.swap w v ws))
]

-- Nobody is lost or added.
pub sort-perm : (votes : List (Bytes × ℤ)) → Perm (sort_witnesses votes) votes
unfolding sort_witnesses
sort-perm [] = Perm.refl []
sort-perm (w ∷ votes) =
    Perm.trans (insert-perm w (sort_witnesses votes)) (Perm.cons w (sort-perm votes))

-- Each witness stays before all that follow it.
abbrev pub IsRanked : List (Bytes × ℤ) → Type 0
IsRanked [] = Unit
IsRanked (w ∷ ws) = All (λ v. stays_before w v ≡ true) ws × IsRanked ws

All-insert :
    (u w : Bytes × ℤ) (ws : List (Bytes × ℤ))
    → stays_before u w ≡ true
    → All (λ v. stays_before u v ≡ true) ws
    → All (λ v. stays_before u v ≡ true) (insert_witness w ws)
unfolding insert_witness
All-insert u w [] h k = (h, tt)
All-insert u w (v ∷ ws) h k = ground (arith, All-insert u w ws h k.1)

All-before :
    (w v : Bytes × ℤ) (ws : List (Bytes × ℤ))
    → stays_before w v ≡ true
    → All (λ u. stays_before v u ≡ true) ws
    → All (λ u. stays_before w u ≡ true) ws
All-before w v [] h k = tt
All-before w v (u ∷ ws) h k = (stays_before_trans w v u h k.0, All-before w v ws h k.1)

insert-IsRanked :
    (w : Bytes × ℤ) (ws : List (Bytes × ℤ)) → IsRanked ws → IsRanked (insert_witness w ws)
unfolding insert_witness
insert-IsRanked w [] h = (tt, tt)
insert-IsRanked w (v ∷ ws) h = elim (Bool-cases (stays_before w v)) [
  | inl first ↦ rw first ((first, All-before w v ws first h.0), h)
  | inr later ↦
      rw later (All-insert v w ws (stays_before_total w v later) h.0, insert-IsRanked w ws h.1)
]

pub sort-IsRanked : (votes : List (Bytes × ℤ)) → IsRanked (sort_witnesses votes)
unfolding sort_witnesses
sort-IsRanked [] = tt
sort-IsRanked (w ∷ votes) = insert-IsRanked w (sort_witnesses votes) (sort-IsRanked votes)

-- The ranking lists each witness as often as the input, and each stands before all those that it
-- beats: it has more votes than the next, or as many votes and an address that is not lower.
rank_witnesses-sorts :
    (votes : List (Bytes × ℤ))
    → (ranked : List (Bytes × ℤ)) × (rank_witnesses votes ≡ map (λ w. w.0) ranked)
      × Perm ranked votes
      × IsRanked ranked
unfolding rank_witnesses
rank_witnesses-sorts votes = (sort_witnesses votes, refl, sort-perm votes, sort-IsRanked votes)

witnesses-set : IsSet (List (Bytes × ℤ))
witnesses-set = hlevel

sort_permᴰ : {xs ys : List (Bytes × ℤ)} → Permᴰ xs ys → sort_witnesses xs ≡ sort_witnesses ys
unfolding sort_witnesses
sort_permᴰ Permᴰ.nil = refl
sort_permᴰ (Permᴰ.cons {a = a} {b = b} e d) = rw (e, sort_permᴰ d)
sort_permᴰ (Permᴰ.swap {a = a} {b = b} {l = l} e f) =
    rw (← e, ← f) (insert_comm a b (sort_witnesses l))
sort_permᴰ (Permᴰ.trans d e) = sort_permᴰ d ∙ sort_permᴰ e

-- Two nodes that hold the same votes in any two orders elect the same witnesses in the same order.
pub rank_witnesses-perm :
    (xs ys : List (Bytes × ℤ)) → Perm xs ys → rank_witnesses xs ≡ rank_witnesses ys
unfolding rank_witnesses
rank_witnesses-perm xs ys p =
    ap (map (λ (w : Bytes × ℤ). w.0))
      (∥∥₁_elim p (witnesses-set (sort_witnesses xs) (sort_witnesses ys)) (λ d. sort_permᴰ d))
