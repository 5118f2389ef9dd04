-- ===== src/Node/Production/Adopted.antt =====
-- What the peers of crates/node/src/sync.rs make of the blocks of crates/node/src/production.rs.
use tron_rs.Prelude.{
  Option-cases, get_elem?, Bytes, bytes_eq, ℤ, pos, negsuc, eqb_ℤ_iff, IsI64, add_i64, ok, ℕ, zero,
  suc, ◌-◌, ◌^◌, ◌<◌, ◌≡◌, refl, sym, ap, ◌∙◌, inl, inr, Bool, true, Option, some, List, [], ◌∷◌,
  arith,
}
use tron_rs.Prelude.Endian.{bytes_eq_iff}
use tron_rs.Chain.{Block, Env}
use tron_rs.Crypto.{IsSound}
use tron_rs.State.World.{World, latest_block_number, get_prop_i64}
use tron_rs.Consensus.Schedule.{scheduled_witness}
use tron_rs.Consensus.Validation.{is_active, validate_block_intake}
use tron_rs.Consensus.Mempool.{Mempool, peek}
use tron_rs.Consensus.Producer.{produce_from_pool, parent_number, draft_header, produce_block}
use tron_rs.Consensus.Producer.Accepts.{produce_block-passes}
use tron_rs.State.Blocks.{number_or, put_block}
use tron_rs.Actuators.Maintenance.{get_active_witnesses}
use tron_rs.Node.Sync.{accept_block, gate, apply_from, apply_synced_blocks_gated}
use tron_rs.Node.Sync.Linked.{apply_from-accepts}
use tron_rs.Node.Production.{
  try_produce, produce_at, slot_at, slot_time, max_block_txs, block_version,
}
use tron_rs.Node.Production.Head.{HasHead, parent_number-numbered}
use tron_rs.Node.Production.Once.{try_produce-at, produce_at-some}

get_elem?-is_active :
    (ws : List Bytes) (i : ℕ) (s : Bytes) → get_elem? ws i ≡ some s → is_active ws s ≡ true
unfolding is_active
get_elem?-is_active [] i s e = absurd (ground arith)
get_elem?-is_active (w ∷ ws) zero s e =
    let one : w ≡ s = ground arith in ground (arith, (bytes_eq_iff w s).1 one)
get_elem?-is_active (w ∷ ws) (suc i) s e = let rest = get_elem?-is_active ws i s e in ground arith

scheduled_witness-is_active :
    (ws : List Bytes) (head_slot slot : ℕ) (s : Bytes)
    → scheduled_witness ws head_slot slot ≡ some s
    → is_active ws s ≡ true
unfolding scheduled_witness
scheduled_witness-is_active [] head_slot slot s e = absurd (ground arith)
scheduled_witness-is_active (w ∷ ws) head_slot slot s e = get_elem?-is_active (w ∷ ws) _ s e

produce_at-scheduled :
    (env : Env) (w : World) (pool : Mempool) (key : Bytes) (now_ms genesis_ts head_ts : ℤ)
    (head block : Block)
    → produce_at env w pool key now_ms head genesis_ts head_ts ≡ some block
    → is_active
        (get_active_witnesses w)
        (env.crypto.address_from_public_key (env.crypto.public_key key))
      ≡ true
unfolding produce_at
produce_at-scheduled env w pool key now_ms genesis_ts head_ts head block h =
    let our = env.crypto.address_from_public_key (env.crypto.public_key key) in
    let head_slot = slot_at head_ts genesis_ts in
    let slot = slot_at now_ms genesis_ts - head_slot in
    elim (Option-cases (scheduled_witness (get_active_witnesses w) head_slot slot)) [
      | inl nobody ↦ absurd (ground arith)
      | inr (scheduled, e) ↦
          let same : bytes_eq scheduled our ≡ true = ground arith in
          let one : scheduled ≡ our = (bytes_eq_iff scheduled our).0 same in
          scheduled_witness-is_active (get_active_witnesses w) head_slot slot our (e ∙ ap some one)
    ]

accept_block-good :
    (env : Env) (decode_block : Bytes → Option Block) (w : World) (require_sig : Bool)
    (ws : List Bytes) (bytes : Bytes) (block : Block)
    → decode_block bytes ≡ some block
    → validate_block_intake env block ws ≡ ok tt
    → number_or (negsuc 0) block ≡ add_i64 (get_prop_i64 w latest_block_number) (pos 1)
    → accept_block env decode_block w require_sig (some ws) bytes ≡ ok block
unfolding accept_block gate
accept_block-good env decode_block w require_sig ws bytes block decoded passed next =
    let follows =
      (eqb_ℤ_iff (number_or (negsuc 0) block)
          (add_i64 (get_prop_i64 w latest_block_number) (pos 1))).1
        next in
    rw (decoded, accept_block, gate, passed, follows) refl

number_or-produced :
    (env : Env) (head : Block) (key : Bytes) (time : ℤ) (pool : Mempool) (n : ℕ) (version : ℤ)
    → number_or (negsuc 0) (produce_from_pool env head key time pool n version)
      ≡ add_i64 (parent_number head) (pos 1)
unfolding number_or produce_from_pool produce_block draft_header
number_or-produced env head key time pool n version = refl

produced-passes :
    (env : Env) (head : Block) (key : Bytes) (time : ℤ) (pool : Mempool) (n : ℕ) (version : ℤ)
    (active : List Bytes)
    → IsSound env.crypto
    → IsI64 (parent_number head)
    → is_active active (env.crypto.address_from_public_key (env.crypto.public_key key)) ≡ true
    → validate_block_intake env (produce_from_pool env head key time pool n version) active ≡ ok tt
unfolding produce_from_pool
produced-passes env head key time pool n version active sound range act =
    produce_block-passes env head key time (peek pool n) version active sound range act

apply_synced_blocks_gated-one :
    (env : Env) (decode_block : Bytes → Option Block) (w : World) (require_sig : Bool)
    (ws : List Bytes) (bytes : Bytes) (block : Block)
    → accept_block env decode_block w require_sig (some ws) bytes ≡ ok block
    → apply_synced_blocks_gated env decode_block w (bytes ∷ []) require_sig (some ws)
      ≡ (put_block env block w, ok 1)
unfolding apply_synced_blocks_gated apply_from
apply_synced_blocks_gated-one env decode_block w require_sig ws bytes block accepts =
    apply_from-accepts env decode_block require_sig (some ws) w 0 bytes [] block accepts

-- With sound cryptography, a stored head whose number has a next below 2^63, and a genesis time: the
-- block that a node produces on its head is stored, as the next one, by every peer whose head has the
-- same number and which has the same active witnesses, once it is decoded from what the peer receives.
pub produced_block_adopted :
    (env : Env) (decode_block : Bytes → Option Block) (w peer : World) (pool : Mempool)
    (key : Bytes) (now_ms genesis_ts head_ts : ℤ) (h : ℕ) (head block : Block) (require_sig : Bool)
    (bytes : Bytes)
    → IsSound env.crypto
    → HasHead w genesis_ts h head head_ts
    → suc h < 2 ^ 63
    → try_produce env w pool key now_ms ≡ some block
    → get_prop_i64 peer latest_block_number ≡ pos h
    → decode_block bytes ≡ some block
    → apply_synced_blocks_gated env decode_block peer
        (bytes ∷ [])
        require_sig
        (some (get_active_witnesses w))
      ≡ (put_block env block peer, ok 1)
produced_block_adopted env decode_block w peer pool key now_ms genesis_ts head_ts h head block
      require_sig bytes sound c room made level decoded =
    let at = sym (try_produce-at env w pool key now_ms genesis_ts head_ts h head c) ∙ made in
    let (newer, same) = produce_at-some env w pool key now_ms genesis_ts head_ts head block at in
    let act = produce_at-scheduled env w pool key now_ms genesis_ts head_ts head block at in
    let parent = parent_number-numbered head head_ts (pos h) c.numbered in
    let time = slot_time genesis_ts (slot_at now_ms genesis_ts) in
    apply_synced_blocks_gated-one env decode_block peer require_sig (get_active_witnesses w) bytes
      block
      (accept_block-good env decode_block peer require_sig (get_active_witnesses w) bytes block
        decoded
        (rw same (
          produced-passes env head key time pool max_block_txs block_version
            (get_active_witnesses w) sound (rw parent (omega arith, omega arith)) act))
        (ap (number_or (negsuc 0)) same
          ∙ number_or-produced env head key time pool max_block_txs block_version
          ∙ rw (parent, level) refl))
