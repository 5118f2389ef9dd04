-- ===== src/Consensus/Election/Order.antt =====
-- The comparator of crates/consensus/src/election.rs is a total order on pairs of address and votes.
use tron_rs.Prelude.{Bytes, ℤ, eq_of_parts, ◌≡◌, refl, Bool, true, false, [], ◌∷◌, arith}
use Prim.Native.Nat.{Ordering}
use tron_rs.Consensus.Election.{cmp_bytes, cmp_witness, stays_before}

-- The `≤` of byte strings.
abbrev leb_bytes : Bytes → Bytes → Bool
leb_bytes x y = elim (cmp_bytes x y) [ Ordering.gt ↦ false | _ ↦ true ]

bytes_total : (x y : Bytes) → leb_bytes x y ≡ false → leb_bytes y x ≡ true
unfolding cmp_bytes
bytes_total [] [] h = cc
bytes_total [] (b ∷ y) h = cc
bytes_total (a ∷ x) [] h = refl
bytes_total (a ∷ x) (b ∷ y) h = ground (arith, bytes_total x y)

bytes_antisym : (x y : Bytes) → leb_bytes x y ≡ true → leb_bytes y x ≡ true → x ≡ y
unfolding cmp_bytes
bytes_antisym [] [] h k = refl
bytes_antisym [] (b ∷ y) h k = cc
bytes_antisym (a ∷ x) [] h k = cc
bytes_antisym (a ∷ x) (b ∷ y) h k = ground (arith, bytes_antisym x y)

bytes_trans : (x y z : Bytes) → leb_bytes x y ≡ true → leb_bytes y z ≡ true → leb_bytes x z ≡ true
unfolding cmp_bytes
bytes_trans [] [] z h k = k
bytes_trans [] (b ∷ y) [] h k = cc
bytes_trans [] (b ∷ y) (c ∷ z) h k = refl
bytes_trans (a ∷ x) [] z h k = cc
bytes_trans (a ∷ x) (b ∷ y) [] h k = cc
bytes_trans (a ∷ x) (b ∷ y) (c ∷ z) h k = ground (arith, bytes_trans x y z)

-- The comparison is `eq` exactly where both directions are `≤`.
bytes_eq_cmp :
    (x y : Bytes) → leb_bytes x y ≡ true → leb_bytes y x ≡ true → cmp_bytes x y ≡ Ordering.eq
unfolding cmp_bytes
bytes_eq_cmp [] [] h k = refl
bytes_eq_cmp [] (b ∷ y) h k = cc
bytes_eq_cmp (a ∷ x) [] h k = cc
bytes_eq_cmp (a ∷ x) (b ∷ y) h k = ground (arith, bytes_eq_cmp x y)

pub stays_before_total : (a b : Bytes × ℤ) → stays_before a b ≡ false → stays_before b a ≡ true
unfolding stays_before cmp_witness
stays_before_total a b h = ground (arith, bytes_total b.0 a.0, eq_of_parts a.1 b.1)

pub stays_before_antisym :
    (a b : Bytes × ℤ) → stays_before a b ≡ true → stays_before b a ≡ true → a ≡ b
unfolding stays_before cmp_witness
stays_before_antisym a b h k =
    ground (arith, bytes_antisym a.0 b.0, bytes_antisym b.0 a.0, eq_of_parts a.1 b.1)

pub stays_before_trans :
    (a b c : Bytes × ℤ)
    → stays_before a b ≡ true
    → stays_before b c ≡ true
    → stays_before a c ≡ true
unfolding stays_before cmp_witness
stays_before_trans a b c h k = ground (arith, bytes_trans c.0 b.0 a.0)
