-- ===== src/Consensus/Mempool/Valid.antt =====
-- The pool of crates/consensus/src/mempool.rs stays well formed.
use tron_rs.Prelude.Endian.{bytes_eq_iff}
use tron_rs.Prelude.{
  leb, if◌then◌else◌, Bool-cases, length, length-append, Bytes, bytes_eq, ℕ, ◌≤◌, ◌<◌, ◌≡◌, refl,
  sym, ap, ◌∙◌, inl, inr, Bool, false, ◌||◌, List, [], ◌∷◌, ◌++◌, arith,
}
use tron_rs.Chain.{Transaction, Env, tx_id}
use tron_rs.Consensus.Mempool.{
  Mempool, new, in_set, set_remove, add, remove_first, remove, contains,
}

-- Whether an entry has the id.
unfoldable pub has_id : Bytes → List (Bytes × Transaction) → Bool
has_id id [] = false
has_id id (e ∷ order) = bytes_eq id e.0 || has_id id order

-- No two entries have one id, and each entry stands under the id of its transaction.
abbrev pub Entries : Env → List (Bytes × Transaction) → Type 0
Entries env [] = Unit
Entries env (e ∷ order) = (has_id e.0 order ≡ false) × (e.0 ≡ tx_id env e.1) × Entries env order

-- The invariant: the entries are as above, the set holds exactly their ids, and the pool is not
-- over its capacity.
pub record IsValid (env : Env) (pool : Mempool) : Type 0 where
  pub entries : Entries env pool.order
  pub same : (id : Bytes) → in_set id pool.seen ≡ has_id id pool.order
  pub bounded : length pool.order ≤ pool.capacity

pub new-IsValid : (env : Env) (capacity : ℕ) → IsValid env (new capacity)
unfolding new in_set has_id
new-IsValid env capacity = record { entries = tt; same = λ id. refl; bounded = omega arith }

has_id-append :
    (id : Bytes) (order : List (Bytes × Transaction)) (e : Bytes × Transaction)
    → has_id id (order ++ e ∷ []) ≡ (has_id id order || bytes_eq id e.0)
unfolding has_id
has_id-append id [] e = ground arith
has_id-append id (x ∷ order) e = ground (arith, has_id-append id order e)

Entries-append :
    (env : Env) (order : List (Bytes × Transaction)) (e : Bytes × Transaction)
    → Entries env order
    → has_id e.0 order ≡ false
    → e.0 ≡ tx_id env e.1
    → Entries env (order ++ e ∷ [])
unfolding has_id
Entries-append env [] e h new k = (refl, k, tt)
Entries-append env (x ∷ order) e h new k = ground (
  arith,
  Entries-append env order e h.2,
  has_id-append x.0 order e,
  bytes_eq_iff e.0 x.0,
  bytes_eq_iff x.0 e.0,
)

added :
    (env : Env) (pool : Mempool) (tx : Transaction)
    → IsValid env pool
    → length pool.order < pool.capacity
    → in_set (tx_id env tx) pool.seen ≡ false
    → IsValid env (record pool {
      order = pool.order ++ (tx_id env tx, tx) ∷ [];
      seen = tx_id env tx ∷ pool.seen;
    })
unfolding in_set
added env pool tx v room new =
    let e : Bytes × Transaction = (tx_id env tx, tx) in
    record {
      entries = Entries-append env pool.order e v.entries (sym (v.same e.0) ∙ new) refl;
      same = λ id. ground (arith, v.same id, has_id-append id pool.order e);
      bounded = rw (length-append pool.order (e ∷ [])) (omega arith);
    }

-- Adding a transaction to a well-formed pool leaves it well formed: no id stands twice, the set
-- holds exactly the ids of the entries, and the pool is not over its capacity.
pub add-IsValid :
    (env : Env) (pool : Mempool) (tx : Transaction)
    → IsValid env pool
    → IsValid env (add env pool tx).0
unfolding add
add-IsValid env pool tx v = elim (Bool-cases (leb pool.capacity (length pool.order))) [
  | inl full ↦ rw full v
  | inr room ↦ rw room (elim (Bool-cases (in_set (tx_id env tx) pool.seen)) [
    | inl known ↦ rw known v
    | inr new ↦ rw new (added env pool tx v (ground arith) new)
  ])
]

pub in_set-set_remove :
    (id x : Bytes) (seen : List Bytes)
    → in_set x (set_remove id seen) ≡ (if bytes_eq id x then false else in_set x seen)
unfolding in_set set_remove
in_set-set_remove id x [] = ground arith
in_set-set_remove id x (y ∷ seen) =
    ground
      (arith, in_set-set_remove id x seen, bytes_eq_iff id y, bytes_eq_iff id x, bytes_eq_iff x y)

has_id-remove_first :
    (env : Env) (id x : Bytes) (order : List (Bytes × Transaction))
    → Entries env order
    → has_id x (remove_first id order) ≡ (if bytes_eq id x then false else has_id x order)
unfolding has_id remove_first
has_id-remove_first env id x [] h = ground arith
has_id-remove_first env id x (e ∷ order) h = ground (
  arith,
  has_id-remove_first env id x order h.2,
  bytes_eq_iff e.0 id,
  bytes_eq_iff id x,
  bytes_eq_iff x e.0,
)

Entries-remove_first :
    (env : Env) (id : Bytes) (order : List (Bytes × Transaction))
    → Entries env order
    → Entries env (remove_first id order)
unfolding remove_first
Entries-remove_first env id [] h = tt
Entries-remove_first env id (e ∷ order) h = ground (
  arith,
  Entries-remove_first env id order h.2,
  has_id-remove_first env id e.0 order h.2,
  bytes_eq_iff e.0 id,
  bytes_eq_iff id e.0,
)

length-remove_first :
    (id : Bytes) (order : List (Bytes × Transaction))
    → length (remove_first id order) ≤ length order
unfolding remove_first
length-remove_first id [] = omega arith
length-remove_first id (e ∷ order) = ground (arith, length-remove_first id order)

-- Removing keeps the invariant, and afterwards the id is gone and every other id is as before.
pub remove-IsValid :
    (env : Env) (pool : Mempool) (id : Bytes)
    → IsValid env pool
    → IsValid env (remove pool id).0
      × ((x : Bytes)
          → contains (remove pool id).0 x ≡ (if bytes_eq id x then false else contains pool x))
unfolding remove contains
remove-IsValid env pool id v = elim (Bool-cases (in_set id pool.seen)) [
  | inl known ↦ rw known (
    record {
      entries = Entries-remove_first env id pool.order v.entries;
      same = λ x.
          in_set-set_remove id x pool.seen
          ∙ ap (λ b. if bytes_eq id x then false else b) (v.same x)
          ∙ sym (has_id-remove_first env id x pool.order v.entries);
      bounded = omega (arith, length-remove_first id pool.order, v.bounded);
    },
    λ x. in_set-set_remove id x pool.seen,
  )
  | inr absent ↦ rw absent (v, λ x. gone x absent)
]
  where
    gone :
        (x : Bytes)
        → in_set id pool.seen ≡ false
        → in_set x pool.seen ≡ (if bytes_eq id x then false else in_set x pool.seen)
    gone x h = ground (arith, bytes_eq_iff id x)
