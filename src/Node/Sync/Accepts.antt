-- ===== src/Node/Sync/Accepts.antt =====
-- A block that crates/node/src/sync.rs accepts.
use tron_rs.Prelude.{
  Option-cases, Bytes, pos, negsuc, ◌+ℤ◌, eqb_ℤ, int_laws, add_i64, add_i64-in, Result, ok, err,
  ◌>>◌, fail_if, ℕ, suc, ◌^◌, ◌<◌, ◌≡◌, refl, sym, ap, ◌∙◌, inl, inr, Bool, true, false, not,
  Option, some, List, arith,
}
use tron_rs.Chain.{Block, Env, header_raw}
use tron_rs.State.World.{World, get_prop_i64, latest_block_number}
use tron_rs.State.Blocks.{number_or}
use tron_rs.Consensus.Validation.{validate_block_intake}
use tron_rs.Node.Sync.{SyncError, gate, accept_block, out_of_order}

pub number_or-found :
    (block : Block) (n : ℕ) → number_or (negsuc 0) block ≡ pos n → number_or (pos 0) block ≡ pos n
unfolding number_or
number_or-found block n e = elim (Option-cases (header_raw block)) [
  | inl h ↦ absurd (ground arith)
  | inr (raw, h) ↦ ground arith
]

pub gate-some :
    (env : Env) (block : Block) (require_sig : Bool) (ws : List Bytes)
    → gate env block require_sig (some ws) ≡ ok tt
    → validate_block_intake env block ws ≡ ok tt
unfolding gate
gate-some env block require_sig ws h = ground arith

checks-ok :
    (first : Result SyncError (Unit {0})) (test : Bool) (e : SyncError) (b block : Block)
    → (first >> (fail_if test e >> ok b)) ≡ ok block
    → (first ≡ ok tt) × (test ≡ false) × (b ≡ block)
checks-ok (err x) test e b block h = absurd (ground arith)
checks-ok (ok u) true e b block h = absurd (ground arith)
checks-ok (ok u) false e b block h = (refl, refl, ground arith)

pub accept_block_sound :
    (env : Env) (decode_block : Bytes → Option Block) (w : World) (require_sig : Bool)
    (ws : List Bytes) (bytes : Bytes) (block : Block)
    → accept_block env decode_block w require_sig (some ws) bytes ≡ ok block
    → (decode_block bytes ≡ some block)
      × (gate env block require_sig (some ws) ≡ ok tt)
      × (number_or (negsuc 0) block ≡ add_i64 (get_prop_i64 w latest_block_number) (pos 1))
unfolding accept_block
accept_block_sound env decode_block w require_sig ws bytes block h =
    elim (Option-cases (decode_block bytes)) [
      | inl none_found ↦ absurd (ground arith)
      | inr (b, decoded) ↦
          let expected = add_i64 (get_prop_i64 w latest_block_number) (pos 1) in
          let num = number_or (negsuc 0) b in
          let (passed, next, one) =
            checks-ok (gate env b require_sig (some ws)) (not (eqb_ℤ num expected))
              (out_of_order expected num) b block (ground arith) in
          (decoded ∙ ap some one, rw (sym one) passed, rw (sym one) (ground arith))
    ]

pub add_i64-suc : (h : ℕ) → suc h < 2 ^ 63 → add_i64 (pos h) (pos 1) ≡ pos (suc h)
add_i64-suc h small =
    let sum : pos h +ℤ pos 1 ≡ pos (suc h) = omega int_laws in
    add_i64-in (pos h) (pos 1) (rw sum (omega arith, omega arith)) ∙ sum

pub next_number :
    (w : World) (h : ℕ)
    → get_prop_i64 w latest_block_number ≡ pos h
    → suc h < 2 ^ 63
    → add_i64 (get_prop_i64 w latest_block_number) (pos 1) ≡ pos (suc h)
next_number w h head small = rw head (add_i64-suc h small)
