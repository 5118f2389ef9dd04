-- ===== src/Consensus/Election.antt =====
-- crates/consensus/src/election.rs: the order in which witnesses are elected. `sort_by` of the
-- standard library is a stable sort; here it is by insertion.
pub mod Order
pub mod Rank
use tron_rs.Prelude.{if◌then◌else◌, Bytes, ℤ, cmp_ℤ, Bool, true, false, List, [], ◌∷◌, map}
use Prim.Native.Nat.{compare, Ordering}

-- `Ord::cmp` of byte slices: lexicographic.
unfoldable pub cmp_bytes : Bytes → Bytes → Ordering
cmp_bytes [] [] = Ordering.eq
cmp_bytes [] (b ∷ y) = Ordering.lt
cmp_bytes (a ∷ x) [] = Ordering.gt
cmp_bytes (a ∷ x) (b ∷ y) =
    let rest = cmp_bytes x y in
    elim (compare a b) [
      | Ordering.lt ↦ Ordering.lt
      | Ordering.gt ↦ Ordering.gt
      | Ordering.eq ↦ rest
    ]

-- Each argument is (address_bytes, vote_count).
unfoldable pub cmp_witness : Bytes × ℤ → Bytes × ℤ → Ordering
unfolding cmp_bytes
cmp_witness a b = elim (cmp_ℤ b.1 a.1) [
  | Ordering.lt ↦ Ordering.lt
  | Ordering.gt ↦ Ordering.gt
  | Ordering.eq ↦ cmp_bytes b.0 a.0
]

-- Whether the sort leaves `a` in front of `b`.
unfoldable pub stays_before : Bytes × ℤ → Bytes × ℤ → Bool
unfolding cmp_witness
stays_before a b = elim (cmp_witness a b) [ Ordering.gt ↦ false | _ ↦ true ]

unfoldable pub insert_witness : Bytes × ℤ → List (Bytes × ℤ) → List (Bytes × ℤ)
insert_witness w [] = w ∷ []
insert_witness w (v ∷ ranked) =
    let rest = insert_witness w ranked in if stays_before w v then w ∷ v ∷ ranked else v ∷ rest

unfoldable pub sort_witnesses : List (Bytes × ℤ) → List (Bytes × ℤ)
sort_witnesses [] = []
sort_witnesses (w ∷ votes) = insert_witness w (sort_witnesses votes)

pub rank_witnesses : List (Bytes × ℤ) → List Bytes
unfolding sort_witnesses insert_witness stays_before
rank_witnesses votes = map (λ w. w.0) (sort_witnesses votes)
