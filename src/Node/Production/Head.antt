-- ===== src/Node/Production/Head.antt =====
-- The head that crates/node/src/production.rs builds on and moves.
use tron_rs.Prelude.{
  Option-cases, Bytes, ℤ, pos, eqb_ℤ, add_i64, ok, ℕ, suc, ◌^◌, ◌<◌, ◌≡◌, refl, ◌∙◌, inl, inr,
  false, some, List, [], ◌∷◌, arith,
}
use tron_rs.Chain.{Block, Transaction, Env, tx_id, header_raw}
use tron_rs.State.World.{World, latest_block_number, get_prop_i64}
use tron_rs.Consensus.Mempool.{Mempool}
use tron_rs.Consensus.Producer.{produce_from_pool, parent_number, draft_header, produce_block}
use tron_rs.State.Blocks.{
  put_block, index_transactions, get_now_block, get_block_by_num, put_transaction, number_or,
  index_block_transactions,
}
use tron_rs.State.Blocks.Head.{get_block-put_block, latest-put_block}
use tron_rs.Node.Production.{chain_times, header_ts_num, apply_produced}

blocks-index_transactions :
    (env : Env) (txs : List Transaction) (w : World) (n : ℤ)
    → get_block_by_num (index_transactions env txs w) n ≡ get_block_by_num w n
unfolding index_transactions put_transaction get_block_by_num
blocks-index_transactions env [] w n = refl
blocks-index_transactions env (tx ∷ txs) w n =
    blocks-index_transactions env txs (put_transaction (tx_id env tx) tx w) n

latest-index_transactions :
    (env : Env) (txs : List Transaction) (w : World)
    → get_prop_i64 (index_transactions env txs w) latest_block_number
      ≡ get_prop_i64 w latest_block_number
unfolding index_transactions put_transaction get_prop_i64
latest-index_transactions env [] w = refl
latest-index_transactions env (tx ∷ txs) w =
    latest-index_transactions env txs (put_transaction (tx_id env tx) tx w)

chain_times-found :
    (w : World) (head genesis : Block) (genesis_ts m head_ts k : ℤ)
    → get_now_block w ≡ ok (some head)
    → get_block_by_num w (pos 0) ≡ ok (some genesis)
    → header_ts_num genesis ≡ some (genesis_ts, m)
    → header_ts_num head ≡ some (head_ts, k)
    → chain_times w ≡ some (head, genesis_ts, head_ts)
unfolding chain_times
chain_times-found w head genesis genesis_ts m head_ts k now first e h =
    rw (now, chain_times, first, e, h) refl

-- The head of the state is stored, with its number and time, and so is the genesis block.
pub record HasHead (w : World) (genesis_ts : ℤ) (h : ℕ) (head : Block) (head_ts : ℤ) : Type 0 where
  pub genesis : Block
  pub genesis_number : ℤ
  pub first : get_block_by_num w (pos 0) ≡ ok (some genesis)
  pub begun : header_ts_num genesis ≡ some (genesis_ts, genesis_number)
  pub latest : get_prop_i64 w latest_block_number ≡ pos h
  pub found : get_block_by_num w (pos h) ≡ ok (some head)
  pub numbered : header_ts_num head ≡ some (head_ts, pos h)

pub chain_times-HasHead :
    (w : World) (genesis_ts head_ts : ℤ) (h : ℕ) (head : Block)
    → HasHead w genesis_ts h head head_ts
    → chain_times w ≡ some (head, genesis_ts, head_ts)
unfolding get_now_block
chain_times-HasHead w genesis_ts head_ts h head c =
    chain_times-found w head c.genesis genesis_ts c.genesis_number head_ts (pos h)
      (rw c.latest c.found) c.first c.begun c.numbered

pub parent_number-numbered :
    (head : Block) (head_ts k : ℤ) → header_ts_num head ≡ some (head_ts, k) → parent_number head ≡ k
unfolding parent_number header_ts_num
parent_number-numbered head head_ts k e = elim (Option-cases (header_raw head)) [
  | inl h ↦ absurd (ground arith)
  | inr (raw, h) ↦ ground arith
]

pub header_ts_num-produced :
    (env : Env) (head : Block) (key : Bytes) (time : ℤ) (pool : Mempool) (n : ℕ) (version : ℤ)
    → header_ts_num (produce_from_pool env head key time pool n version)
      ≡ some (time, add_i64 (parent_number head) (pos 1))
unfolding header_ts_num produce_from_pool produce_block draft_header
header_ts_num-produced env head key time pool n version = refl

number_or-numbered :
    (block : Block) (time k : ℤ)
    → header_ts_num block ≡ some (time, k)
    → number_or (pos 0) block ≡ k
unfolding number_or header_ts_num
number_or-numbered block time k e = elim (Option-cases (header_raw block)) [
  | inl h ↦ absurd (ground arith)
  | inr (raw, h) ↦ ground arith
]

-- The state after a block with the next number.
pub apply_produced-HasHead :
    (env : Env) (w : World) (pool : Mempool) (genesis_ts head_ts time : ℤ) (h : ℕ)
    (head block : Block)
    → HasHead w genesis_ts h head head_ts
    → suc h < 2 ^ 63
    → header_ts_num block ≡ some (time, pos (suc h))
    → HasHead (apply_produced env w pool block).0.0 genesis_ts (suc h) block time
unfolding apply_produced index_block_transactions
apply_produced-HasHead env w pool genesis_ts head_ts time h head block c small numbered =
    let w₁ = put_block env block w in
    let number = number_or-numbered block time (pos (suc h)) numbered in
    let other : eqb_ℤ (pos (suc h)) (pos 0) ≡ false = ground arith in
    record {
      genesis = c.genesis;
      genesis_number = c.genesis_number;
      first =
          blocks-index_transactions env block.transactions w₁ (pos 0)
          ∙ get_block-put_block env block w (pos 0)
          ∙ rw (number, other) c.first;
      begun = c.begun;
      latest =
          latest-index_transactions env block.transactions w₁
          ∙ latest-put_block env block w (rw number (omega arith, omega arith))
              (rw (c.latest, number) (omega arith))
          ∙ number;
      found =
          blocks-index_transactions env block.transactions w₁ (pos (suc h))
          ∙ get_block-put_block env block w (pos (suc h))
          ∙ rw number (ground arith);
      numbered = numbered;
    }
