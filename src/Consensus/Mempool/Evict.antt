-- ===== src/Consensus/Mempool/Evict.antt =====
-- What the evictions of crates/consensus/src/mempool.rs leave in the pool.
use tron_rs.Prelude.Endian.{bytes_eq_iff}
use tron_rs.Prelude.{
  if◌then◌else◌, length, keep_if, length-keep_if_le, Bytes, bytes_eq, ℤ, ◌+◌, ◌≡◌, refl, ◌∙◌, Bool,
  false, ◌&&◌, ◌||◌, List, [], ◌∷◌, arith,
}
use tron_rs.Chain.{Transaction, Block, Env, tx_id}
use tron_rs.Consensus.Mempool.{
  Mempool, in_set, set_remove, remove, contains, evict_all, evict_included, keeps, retain_live,
  evict_expired,
}
use tron_rs.Consensus.Mempool.Valid.{IsValid, Entries, has_id, in_set-set_remove, remove-IsValid}

-- Whether one of the transactions has the id.
unfoldable pub includes : Env → List Transaction → Bytes → Bool
includes env [] id = false
includes env (tx ∷ txs) id = bytes_eq (tx_id env tx) id || includes env txs id

evict_all-exact :
    (env : Env) (pool : Mempool) (txs : List Transaction)
    → IsValid env pool
    → IsValid env (evict_all env pool txs)
      × ((id : Bytes)
          → contains (evict_all env pool txs) id
            ≡ (if includes env txs id then false else contains pool id))
unfolding evict_all includes
evict_all-exact env pool [] v = (v, λ id. refl)
evict_all-exact env pool (tx ∷ txs) v =
    let (v', gone) = remove-IsValid env pool (tx_id env tx) v in
    let (v'', rest) = evict_all-exact env (remove pool (tx_id env tx)).0 txs v' in
    (v'', λ id. rest id ∙ both id (gone id))
  where
    both :
        (id : Bytes)
        → contains (remove pool (tx_id env tx)).0 id
          ≡ (if bytes_eq (tx_id env tx) id then false else contains pool id)
        → (if includes env txs id then false else contains (remove pool (tx_id env tx)).0 id)
          ≡ (if bytes_eq (tx_id env tx) id || includes env txs id then false else contains pool id)
    both id h = ground arith

-- After a block's eviction the pool is well formed, holds none of the block's transactions, and
-- holds every other transaction that it held.
pub evict_included-exact :
    (env : Env) (pool : Mempool) (block : Block)
    → IsValid env pool
    → IsValid env (evict_included env pool block)
      × ((id : Bytes)
          → contains (evict_included env pool block) id
            ≡ (if includes env block.transactions id then false else contains pool id))
unfolding evict_included
evict_included-exact env pool block v = evict_all-exact env pool block.transactions v

-- The entries that a `retain` keeps, in order.
abbrev pub live : ℤ → List (Bytes × Transaction) → List (Bytes × Transaction)
live now = keep_if (λ e. keeps now e.1)

retain_live-kept :
    (now : ℤ) (order : List (Bytes × Transaction)) (seen : List Bytes)
    → (retain_live now order seen).0 ≡ live now order
unfolding retain_live
retain_live-kept now [] seen = refl
retain_live-kept now (e ∷ order) seen =
    ground
      (arith, retain_live-kept now order seen, retain_live-kept now order (set_remove e.0 seen))

has_id-live :
    (now : ℤ) (id : Bytes) (order : List (Bytes × Transaction))
    → has_id id order ≡ false
    → has_id id (live now order) ≡ false
unfolding has_id
has_id-live now id [] h = refl
has_id-live now id (e ∷ order) h = ground (arith, has_id-live now id order)

Entries-live :
    (env : Env) (now : ℤ) (order : List (Bytes × Transaction))
    → Entries env order
    → Entries env (live now order)
Entries-live env now [] h = tt
Entries-live env now (e ∷ order) h =
    ground (arith, Entries-live env now order h.2, has_id-live now e.0 order h.0)

retain_live-left :
    (env : Env) (now : ℤ) (order : List (Bytes × Transaction)) (seen : List Bytes) (id : Bytes)
    → Entries env order
    → in_set id (retain_live now order seen).1
      ≡ (if has_id id order then has_id id (live now order) && in_set id seen else in_set id seen)
unfolding retain_live has_id
retain_live-left env now [] seen id h = refl
retain_live-left env now (e ∷ order) seen id h = ground (
  arith,
  retain_live-left env now order seen id h.2,
  retain_live-left env now order (set_remove e.0 seen) id h.2,
  in_set-set_remove e.0 id seen,
  has_id-live now id order,
  bytes_eq_iff e.0 id,
  bytes_eq_iff id e.0,
)

-- After the expired transactions are evicted the pool is well formed, holds exactly the entries
-- that have no expiration or one after `now`, in their old order, and the answer counts the others.
evict_expired-exact :
    (env : Env) (pool : Mempool) (now : ℤ)
    → IsValid env pool
    → let (pool', evicted) = evict_expired pool now in
      IsValid env pool'
      × (pool'.order ≡ live now pool.order)
      × (evicted + length pool'.order ≡ length pool.order)
unfolding evict_expired
evict_expired-exact env pool now v =
    let kept = retain_live-kept now pool.order pool.seen in
    let shorter = length-keep_if_le (λ e. keeps now e.1) pool.order in
    (
      record {
        entries = rw kept (Entries-live env now pool.order v.entries);
        same = λ id. rw kept (left id);
        bounded = rw kept (omega (arith, v.bounded, shorter));
      },
      kept,
      rw kept (omega (arith, shorter)),
    )
  where
    left :
        (id : Bytes)
        → in_set id (retain_live now pool.order pool.seen).1 ≡ has_id id (live now pool.order)
    left id = ground (
      arith,
      retain_live-left env now pool.order pool.seen id v.entries,
      v.same id,
      has_id-live now id pool.order,
    )
