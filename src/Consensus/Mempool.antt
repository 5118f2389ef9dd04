-- ===== src/Consensus/Mempool.antt =====
-- crates/consensus/src/mempool.rs: the pool of pending transactions and the admission of one.
-- `HashSet<H256>` is a list of ids; only membership in it is read.
pub mod Admit
pub mod Valid
pub mod Evict
use tron_rs.Prelude.{
  leb, if◌then◌else◌, length, take, Bytes, bytes_eq, ℤ, pos, ltb_ℤ, eqb_ℤ, ℕ, ◌-◌, Bool, true,
  false, ◌||◌, none, some, List, [], ◌∷◌, ◌++◌, map,
}
use tron_rs.Chain.{Transaction, Block, Env, tx_id}

abbrev pub default_capacity : ℕ
default_capacity = 10000

pub record Mempool : Type 0 where
  pub order : List (Bytes × Transaction)
  pub seen : List Bytes
  pub capacity : ℕ

unfoldable pub new : ℕ → Mempool
new capacity = record { order = []; seen = []; capacity = capacity }

unfoldable pub in_set : Bytes → List Bytes → Bool
in_set id [] = false
in_set id (x ∷ xs) = bytes_eq id x || in_set id xs

-- `HashSet::remove`
unfoldable pub set_remove : Bytes → List Bytes → List Bytes
set_remove id [] = []
set_remove id (x ∷ xs) = let rest = set_remove id xs in if bytes_eq id x then rest else x ∷ rest

unfoldable pub contains : Mempool → Bytes → Bool
contains pool id = in_set id pool.seen

-- The pool after the call and its answer.
unfoldable pub add : Env → Mempool → Transaction → Mempool × Bool
add env pool tx =
    let id = tx_id env tx in
    if leb pool.capacity (length pool.order)
    then (pool, false)
    else if in_set id pool.seen
    then (pool, false)
    else (record pool { order = pool.order ++ (id, tx) ∷ []; seen = id ∷ pool.seen }, true)

-- `self.order.remove(pos)` at the first position whose id is `id`.
unfoldable pub remove_first : Bytes → List (Bytes × Transaction) → List (Bytes × Transaction)
remove_first id [] = []
remove_first id (e ∷ order) = if bytes_eq e.0 id then order else e ∷ remove_first id order

unfoldable pub remove : Mempool → Bytes → Mempool × Bool
remove pool id =
    if in_set id pool.seen
    then (record pool { order = remove_first id pool.order; seen = set_remove id pool.seen }, true)
    else (pool, false)

unfoldable pub peek : Mempool → ℕ → List Transaction
peek pool n = map (λ e. e.1) (take n pool.order)

-- `evict_included` on the block's transactions.
unfoldable pub evict_all : Env → Mempool → List Transaction → Mempool
evict_all env pool [] = pool
evict_all env pool (tx ∷ txs) = evict_all env (remove pool (tx_id env tx)).0 txs

unfoldable pub evict_included : Env → Mempool → Block → Mempool
unfolding evict_all
evict_included env pool block = evict_all env pool block.transactions

-- `tx.raw_data.as_ref().map(|r| r.expiration).unwrap_or(0)`
unfoldable pub expiration_of : Transaction → ℤ
expiration_of tx = elim tx.raw_data [ none ↦ pos 0 | some raw ↦ raw.expiration ]

unfoldable pub keeps : ℤ → Transaction → Bool
unfolding expiration_of
keeps now tx = eqb_ℤ (expiration_of tx) (pos 0) || ltb_ℤ now (expiration_of tx)

-- `retain` with its closure: the entries kept, and the ids left in the set.
unfoldable pub retain_live :
    ℤ → List (Bytes × Transaction) → List Bytes → List (Bytes × Transaction) × List Bytes
retain_live now [] seen = ([], seen)
retain_live now (e ∷ order) seen =
    let live = keeps now e.1 in
    let (kept, left) = retain_live now order (if live then seen else set_remove e.0 seen) in
    (if live then e ∷ kept else kept, left)

unfoldable pub evict_expired : Mempool → ℤ → Mempool × ℕ
unfolding retain_live
evict_expired pool now =
    let (kept, left) = retain_live now pool.order pool.seen in
    (record pool { order = kept; seen = left }, length pool.order - length kept)
