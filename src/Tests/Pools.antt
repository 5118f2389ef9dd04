-- ===== src/Tests/Pools.antt =====
-- The pool of crates/consensus/src/mempool.rs at concrete inputs.
use tron_rs.Prelude.Endian.{i64_to_be}
use tron_rs.Prelude.{
  if◌then◌else◌, Bytes, bytes_eq, pos, ◌+ℤ◌, eqb_ℤ, wrap_i64, add_i64, ◌<◌, ◌≡◌, refl, Bool, true,
  false, none, some, [], ◌∷◌, ◌++◌, arith,
}
use tron_rs.Crypto.{recover_address}
use tron_rs.Prelude.Endian.{i64_to_be}
use tron_rs.Tests.Toy.{env, zeros, tx₁, tx₂, witness, bare}
use tron_rs.Chain.{Transaction, Block, tx_id, block_id_of, recover_tx_signer, tx_owner_address}
use tron_rs.Consensus.Mempool.{
  Mempool, new, in_set, contains, add, evict_included, keeps, evict_expired,
}
use tron_rs.Consensus.Mempool.Valid.{IsValid, new-IsValid, add-IsValid}
use tron_rs.Consensus.Mempool.Evict.{evict_included-exact, includes}
use tron_rs.Consensus.Mempool.Admit.{View, check_transaction, admit_transaction}
use tron_rs.Consensus.Mempool.Admit.Sound.{Passes, admit_transaction-ok}

abbrev pool : Mempool
pool = (add env (add env (new 2) tx₁).0 tx₂).0

pool-IsValid : IsValid env pool
pool-IsValid = add-IsValid env _ tx₂ (add-IsValid env _ tx₁ (new-IsValid env 2))

abbrev included : Block
included = record bare { transactions = tx₂ ∷ [] }

evict_included-exact_example :
    IsValid env (evict_included env pool included)
    × ((id : Bytes)
        → contains (evict_included env pool included) id
          ≡ (if includes env (tx₂ ∷ []) id then false else contains pool id))
evict_included-exact_example = evict_included-exact env pool included pool-IsValid

-- The second transaction, which has expired, is gone, and the first is left.
one_is_left : (evict_expired pool (pos 600)).1 ≡ 1
unfolding evict_expired keeps add new in_set bytes_eq tx_id
one_is_left = refl

-- Block 1, with the reference of a transaction to it.
abbrev referenced : Block
referenced = record {
  transactions = [];
  block_header = some (record {
    raw_data = some (record {
      timestamp = pos 0;
      tx_trie_root = zeros 32;
      parent_hash = zeros 32;
      number = pos 1;
      witness_address = witness;
      version = pos 0;
    });
    witness_signature = [];
  });
}

abbrev view : View
view = record {
  head = some (pos 2);
  block_by_num = λ n. if eqb_ℤ n (pos 1) then some (some referenced) else some none;
  transaction = λ id. some none;
}

abbrev referring : Transaction
referring = record {
  raw_data = some (record {
    ref_block_bytes = 0 ∷ 1 ∷ [];
    ref_block_hash = zeros 8;
    expiration = pos 900;
    contract = none ∷ [];
    timestamp = pos 0;
  });
  signature = (5 ∷ zeros 63 ++ 27 ∷ []) ∷ [];
}

abbrev accept_all : Transaction → Bool
accept_all tx = true

admit_transaction-ok_example :
    let admitted = (admit_transaction env (new 2) view referring (pos 100) accept_all).0 in
    let id = tx_id env referring in
    Passes env view referring (pos 100) accept_all
    × (id ≡ id)
    × (contains (new 2) id ≡ false)
    × (0 < 2)
    × (admitted ≡ record (new 2) { order = (id, referring) ∷ []; seen = id ∷ [] })
unfolding admit_transaction check_transaction contains tx_id in_set add new recover_tx_signer
    recover_address tx_owner_address add_i64 wrap_i64 ◌+ℤ◌ bytes_eq block_id_of i64_to_be
admit_transaction-ok_example =
    admit_transaction-ok env (new 2) view referring (pos 100) accept_all (tx_id env referring)
      (omega arith, (omega arith, tt)) refl
