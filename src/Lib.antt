-- ===== src/Lib.antt =====
-- Verification of tron-rs, a node of the Tron network in Rust.
--
-- The program is a workspace of crates. `crates/chain` computes the ids of blocks and transactions and
-- recovers their signers with `crates/crypto`; `crates/state` keeps the world state over a key-value
-- store; `crates/actuators` are the system contracts, which validate against the world state and then
-- change it; `crates/consensus` holds the pure rules: schedule, election, rewards, block validation,
-- block production, fork choice, PBFT finality and the pool of pending transactions; `crates/vm`
-- runs contracts, and `crates/p2p` and `crates/node` tie all of it to the network.
--
-- Which file models which part:
-- - Crypto: crates/crypto/src/lib.rs. The cryptographic crates are the record `Crypto`, with what they
--   document in `IsSound`.
-- - Chain, Chain/Merkle, Chain/Owner: crates/chain/src/lib.rs (tx_id, merkle_root, tx_trie_root,
--   block_hash, block_id, recover_witness, recover_tx_signer, tx_owner_address). The protobuf encoding
--   is the record `Codec`. Chain/Binding is about the merkle root.
-- - Consensus/Fork, Pbft, Pbft/Commit, Schedule, Election, Reward, Mempool, Mempool/Admit, Validation,
--   Producer: the files of crates/consensus/src of those names; Schedule and Validation are its
--   lib.rs. Their child modules hold the theorems.
-- - State/World: crates/state/src/lib.rs and features.rs. A column family is a function from keys.
-- - Actuators, Actuators/Transfer: crates/actuators/src/lib.rs and transfer.rs.
-- - Actuators/Dex with Create, Inject, Withdraw and Swap: crates/actuators/src/exchange.rs. What is
--   computed with f64 is the record `Floats`. The theorems are in Conserve, Trades, Executed and
--   Atomic.
-- - Actuators/Market with Price, Book, Sell, Sell/Match and Cancel: crates/actuators/src/market. Book is
--   order_book.rs, with the index records as the bytes that are stored; Book/View is what they say of a
--   pair. The fields `prev` and `next` of an order are never set and left out.
-- - Actuators/Stake with Freeze, Unfreeze, Expire and Cancel: freeze_v2.rs, withdraw_unfreeze.rs and
--   cancel_unfreeze.rs of crates/actuators/src. Stake/Steps is about sequences of these contracts.
-- - Actuators/Vote: vote.rs of crates/actuators/src.
-- - Actuators/StakeV1 with Freeze and Unfreeze: freeze_v1.rs of crates/actuators/src.
-- - Actuators/Delegation with Delegate and Undelegate: delegate.rs of crates/actuators/src. Amounts is the
--   specification: four amounts that a delegation moves.
-- - Actuators/Governance with Create, Approve and Delete: proposal.rs of crates/actuators/src. Keeps is
--   the register's invariant and Steps is about sequences.
-- - Actuators/Candidate with Register and Update: witness.rs of crates/actuators/src.
-- - Actuators/Maintenance: maintenance.rs of crates/actuators/src, with get_active_witnesses and
--   put_active_witnesses of crates/state/src/lib.rs.
-- - Actuators/Withdraw, Actuators/Brokerage: withdraw.rs and brokerage.rs of crates/actuators/src.
-- - Node/Finality, Node/Finality/Emit: on_pbft_commit and emit_commit of crates/node/src/net.rs, with
--   the part of the handler that they use.
-- - State/Blocks: blocks.rs of crates/state/src. Node/Sync and Node/Production: sync.rs and production.rs of
--   crates/node/src.
-- - P2p/Message and P2p/Sync: message.rs and sync.rs of crates/p2p/src.
-- - Vm/Energy and Vm/Memory: energy.rs (the computed costs) and memory.rs (the growth) of crates/vm/src.
-- - Prelude: lists, integers with the arithmetic of i64, results, and big-endian bytes.
-- - Tests: concrete inputs.
--
-- Numbers: i64 and i128 are integers with the wrap-around, the saturation or the check of the source
-- written out; u64 and usize are natural numbers, whose
-- wrap-around is written out in Vm.
--
-- Fuel: the loop of merkle_root runs for as many rounds as there are hashes, and Chain/Merkle shows
-- that this is enough for one hash to be left; the loop of solidified_block runs for as many rounds as
-- the head's number, which is all that its condition allows; the loop of match_order over the prices
-- runs once more than there are prices, and Sell/Rounds shows that more makes no difference; its inner
-- loop is a recursion on MAX_MATCH_NUM less the matches so far; chunks_exact runs for as many rounds as
-- there are bytes.
--
-- Not modelled: the storage backends, RPC, sockets and threads, which are input and output; the
-- interpreter of contracts, which stands on 256-bit integers of another package; and the actuators other
-- than these.
pub mod Prelude
pub mod Crypto
pub mod Chain
pub mod State
pub mod Consensus
pub mod Actuators
pub mod Node
pub mod P2p
pub mod Vm
pub mod Tests
