-- ===== src/Node/Sync/Linked.antt =====
-- What node/src/sync.rs leaves behind when it applies the blocks of a peer to a head.
use tron_rs.Prelude.{
  length, Bytes, pos, negsuc, Result, ok, err, Result-cases, ℕ, suc, ◌+◌, ◌^◌, ◌≤◌, ◌<◌, ◌≡◌, refl,
  sym, ◌∙◌, inl, inr, Bool, true, Option, some, List, [], ◌∷◌, arith,
}
use mathlib.Core.Path.{subst}
use tron_rs.Chain.{Block, Env}
use tron_rs.State.World.{World, get_prop_i64, latest_block_number}
use tron_rs.State.Blocks.{put_block, number_or, get_block_by_num}
use tron_rs.State.Blocks.Head.{get_block-put_block, latest-put_block}
use tron_rs.Consensus.Validation.{is_active}
use tron_rs.Consensus.Validation.Gate.{IsSealed, validate_block_intake_sound}
use tron_rs.Node.Sync.{SyncError, accept_block, apply_from, apply_synced_blocks_gated}
use tron_rs.Node.Sync.Accepts.{number_or-found, gate-some, accept_block_sound, next_number}

-- How the blocks are taken after the head `h`, to end in the state `end` with `result`: each accepted
-- block is what the next bytes decode to, is sealed by an active witness, and has the next number. It
-- ends with the last block, or with one that is refused there.
pub data Continues (env : Env) (decode_block : Bytes → Option Block) (require_sig : Bool)
    (ws : List Bytes) (end : World) (result : Result SyncError ℕ)
    : ℕ → ℕ → List Bytes → List Block → Type 0 where
  complete :
      (h applied : ℕ)
      → result ≡ ok applied
      → Continues env decode_block require_sig ws end result h applied [] []
  refused :
      (h applied : ℕ) (bytes : Bytes) (blocks : List Bytes) (e : SyncError)
      → accept_block env decode_block end require_sig (some ws) bytes ≡ err e
      → result ≡ err e
      → Continues env decode_block require_sig ws end result h applied (bytes ∷ blocks) []
  goes_on :
      (h applied : ℕ) (bytes : Bytes) (blocks : List Bytes) (block : Block) (accepted : List Block)
      (producer : Bytes)
      → decode_block bytes ≡ some block
      → IsSealed env block producer
      → is_active ws producer ≡ true
      → number_or (negsuc 0) block ≡ pos (suc h)
      → Continues env decode_block require_sig ws end result (suc h) (suc applied) blocks accepted
      → Continues env decode_block require_sig ws end result h applied
          (bytes ∷ blocks)
          (block ∷ accepted)

-- The blocks stand under the numbers after `h`.
unfoldable pub Holds : World → ℕ → List Block → Type 0
Holds w h [] = Unit
Holds w h (block ∷ blocks) =
    (get_block_by_num w (pos (suc h)) ≡ ok (some block)) × Holds w (suc h) blocks

-- The state `end` has the accepted blocks on top of the head `h` of `w`.
pub record Extends (w : World) (h : ℕ) (accepted : List Block) (end : World) : Type 0 where
  pub head_at : get_prop_i64 end latest_block_number ≡ pos (h + length accepted)
  pub holds : Holds end h accepted
  pub keeps : (n : ℕ) → n ≤ h → get_block_by_num end (pos n) ≡ get_block_by_num w (pos n)

Extends-put_block :
    (env : Env) (block : Block) (w end : World) (h : ℕ) (accepted : List Block)
    → get_prop_i64 w latest_block_number ≡ pos h
    → number_or (pos 0) block ≡ pos (suc h)
    → Extends (put_block env block w) (suc h) accepted end
    → Extends w h (block ∷ accepted) end
unfolding Holds
Extends-put_block env block w end h accepted head number e = record {
  head_at = e.head_at ∙ (ground arith);
  holds = (
    e.keeps (suc h) (omega arith)
        ∙ get_block-put_block env block w (pos (suc h))
        ∙ rw number (ground arith),
    e.holds,
  );
  keeps = λ n le.
      e.keeps n (omega arith) ∙ get_block-put_block env block w (pos n) ∙ rw number (ground arith);
}

head-put_block :
    (env : Env) (block : Block) (w : World) (h : ℕ)
    → get_prop_i64 w latest_block_number ≡ pos h
    → number_or (pos 0) block ≡ pos (suc h)
    → suc h < 2 ^ 63
    → get_prop_i64 (put_block env block w) latest_block_number ≡ pos (suc h)
head-put_block env block w h head number small =
    latest-put_block env block w (rw number (omega arith, omega arith))
      (rw (head, number) (omega arith))
    ∙ number

pub apply_from-accepts :
    (env : Env) (decode_block : Bytes → Option Block) (require_sig : Bool)
    (active : Option (List Bytes)) (w : World) (applied : ℕ) (bytes : Bytes) (blocks : List Bytes)
    (block : Block)
    → accept_block env decode_block w require_sig active bytes ≡ ok block
    → apply_from env decode_block require_sig active w applied (bytes ∷ blocks)
      ≡ apply_from env decode_block require_sig active (put_block env block w) (suc applied) blocks
unfolding apply_from
apply_from-accepts env decode_block require_sig active w applied bytes blocks block h =
    rw (h, apply_from) refl

apply_from-refuses :
    (env : Env) (decode_block : Bytes → Option Block) (require_sig : Bool)
    (active : Option (List Bytes)) (w : World) (applied : ℕ) (bytes : Bytes) (blocks : List Bytes)
    (e : SyncError)
    → accept_block env decode_block w require_sig active bytes ≡ err e
    → apply_from env decode_block require_sig active w applied (bytes ∷ blocks) ≡ (w, err e)
unfolding apply_from
apply_from-refuses env decode_block require_sig active w applied bytes blocks e h =
    rw (h, apply_from) refl

Extends-none : (w : World) (h : ℕ) → get_prop_i64 w latest_block_number ≡ pos h → Extends w h [] w
unfolding Holds
Extends-none w h head = record { head_at = head ∙ (ground arith); holds = tt; keeps = λ n le. refl }

-- What applying the blocks to the head `h` comes to.
abbrev pub Applies :
    Env
    → (Bytes → Option Block)
    → Bool
    → List Bytes
    → World
    → ℕ
    → ℕ
    → List Bytes
    → World × Result SyncError ℕ
    → Type 0
Applies env decode_block require_sig ws w h applied blocks (end, result) =
    (accepted : List Block) × Continues env decode_block require_sig ws end result h applied blocks
      accepted
    × Extends w h accepted end

apply_from-Applies :
    (env : Env) (decode_block : Bytes → Option Block) (require_sig : Bool) (ws : List Bytes)
    (w : World) (applied h : ℕ) (blocks : List Bytes)
    → get_prop_i64 w latest_block_number ≡ pos h
    → h + length blocks < 2 ^ 63
    → Applies env decode_block require_sig ws w h applied blocks
        (apply_from env decode_block require_sig (some ws) w applied blocks)
unfolding apply_from
apply_from-Applies env decode_block require_sig ws w applied h [] head small =
    ([], complete h applied refl, Extends-none w h head)
apply_from-Applies env decode_block require_sig ws w applied h (bytes ∷ blocks) head small =
    let Goal = Applies env decode_block require_sig ws w h applied (bytes ∷ blocks) in
    elim (Result-cases (accept_block env decode_block w require_sig (some ws) bytes)) [
      | inr (block, accepts) ↦
          let (decoded, passed, next) =
            accept_block_sound env decode_block w require_sig ws bytes block accepts in
          let numbered = next ∙ next_number w h head (omega arith) in
          let number = number_or-found block (suc h) numbered in
          let (producer, seal, active) =
            validate_block_intake_sound env block ws (gate-some env block require_sig ws passed) in
          let (accepted, continues, extends) =
            apply_from-Applies env decode_block require_sig ws (put_block env block w) (suc applied)
              (suc h) blocks (head-put_block env block w h head number (ground arith))
              (ground arith) in
          subst Goal
            (sym (
              apply_from-accepts env decode_block require_sig (some ws) w applied bytes blocks block
                accepts))
            (
              block ∷ accepted,
              goes_on h applied bytes blocks block accepted producer decoded seal active numbered
                  continues,
              Extends-put_block env block w _ h accepted head number extends,
            )
      | inl (e, refuses) ↦
          subst Goal
            (sym (
              apply_from-refuses env decode_block require_sig (some ws) w applied bytes blocks e
                refuses))
            ([], refused h applied bytes blocks e refuses refl, Extends-none w h head)
    ]

-- From a head at a number that is not negative, and with room for the blocks below 2^63: where the
-- active witnesses are known, the blocks are applied up to the first that is refused. Each of those
-- that are applied decodes from its bytes, is sealed by an active witness and has the number after the
-- head; they are stored under their numbers, the head is the last of them, no older number changes,
-- and the result is their count if none was refused, or the error of the refused one in the state then.
pub apply_synced_blocks_gated-Applies :
    (env : Env) (decode_block : Bytes → Option Block) (require_sig : Bool) (ws : List Bytes)
    (w : World) (h : ℕ) (blocks : List Bytes)
    → get_prop_i64 w latest_block_number ≡ pos h
    → h + length blocks < 2 ^ 63
    → Applies env decode_block require_sig ws w h 0 blocks
        (apply_synced_blocks_gated env decode_block w blocks require_sig (some ws))
unfolding apply_synced_blocks_gated
apply_synced_blocks_gated-Applies env decode_block require_sig ws w h blocks head small =
    apply_from-Applies env decode_block require_sig ws w 0 h blocks head small
