-- ===== src/State/Blocks/Head.antt =====
-- What crates/state/src/blocks.rs stores of a block that is put after the head.
use tron_rs.Prelude.{
  if◌then◌else◌, Bool-cases, Option-cases, ℤ, pos, ◌≤ℤ◌, leb_ℤ, eqb_ℤ, IsI64, ok, ◌≡◌, refl, ap,
  ◌∙◌, inl, inr, true, some, arith,
}
use tron_rs.Chain.{Block, Env, header_raw, block_id_of}
use tron_rs.State.World.{
  World, latest_timestamp, latest_block_number, read_cell, get_prop_i64, put_prop_i64,
}
use tron_rs.State.World.Laws.{get_prop-put_prop, get_prop-put_other}
use tron_rs.State.Blocks.{
  put_block, number_or, store_block, index_block, advance_head, get_block_by_num,
}

blocks-index_block :
    (env : Env) (number : ℤ) (block : Block) (w : World)
    → (index_block env number block w).blocks ≡ w.blocks
unfolding index_block
blocks-index_block env number block w = elim (Option-cases (block_id_of env block)) [
  | inl e ↦ rw (e, index_block) refl
  | inr (id, e) ↦ rw (e, index_block) refl
]

blocks-advance_head :
    (number : ℤ) (block : Block) (w : World) → (advance_head number block w).blocks ≡ w.blocks
unfolding advance_head put_prop_i64
blocks-advance_head number block w =
    elim (Bool-cases (leb_ℤ (get_prop_i64 w latest_block_number) number)) [
      | inl e ↦ elim (Option-cases (header_raw block)) [
        | inl h ↦ rw (e, advance_head, h) refl
        | inr (raw, h) ↦ rw (e, advance_head, h) refl
      ]
      | inr e ↦ rw (e, advance_head) refl
    ]

get_block-placed :
    (env : Env) (number n : ℤ) (block : Block) (w : World)
    → get_block_by_num
        (advance_head number block (index_block env number block (store_block number block w)))
        n
      ≡ (if eqb_ℤ number n then ok (some block) else get_block_by_num w n)
unfolding get_block_by_num store_block
get_block-placed env number n block w =
    let stored = store_block number block w in
    let indexed = index_block env number block stored in
    ap (λ column. read_cell (column n)) (blocks-advance_head number block indexed)
    ∙ ap (λ column. read_cell (column n)) (blocks-index_block env number block stored)
    ∙ elim (Bool-cases (eqb_ℤ number n)) [ inl s ↦ rw s refl | inr s ↦ rw s refl ]

-- Every number but the block's own keeps its block.
pub get_block-put_block :
    (env : Env) (block : Block) (w : World) (n : ℤ)
    → get_block_by_num (put_block env block w) n
      ≡ (if eqb_ℤ (number_or (pos 0) block) n then ok (some block) else get_block_by_num w n)
unfolding put_block
get_block-put_block env block w n = get_block-placed env (number_or (pos 0) block) n block w

latest-index_block :
    (env : Env) (number : ℤ) (block : Block) (w : World)
    → get_prop_i64 (index_block env number block w) latest_block_number
      ≡ get_prop_i64 w latest_block_number
unfolding index_block get_prop_i64
latest-index_block env number block w = elim (Option-cases (block_id_of env block)) [
  | inl e ↦ rw (e, index_block) refl
  | inr (id, e) ↦ rw (e, index_block) refl
]

latest-advance_head :
    (number : ℤ) (block : Block) (w : World)
    → IsI64 number
    → leb_ℤ (get_prop_i64 w latest_block_number) number ≡ true
    → get_prop_i64 (advance_head number block w) latest_block_number ≡ number
unfolding advance_head
latest-advance_head number block w range e =
    let moved = get_prop-put_prop latest_block_number latest_block_number number w range in
    elim (Option-cases (header_raw block)) [
      | inl h ↦ rw (e, advance_head, h) moved
      | inr (raw, h) ↦
          rw (e, advance_head, h)
            (get_prop-put_other latest_timestamp latest_block_number raw.timestamp
                (put_prop_i64 latest_block_number number w) refl
              ∙ moved)
    ]

latest-placed :
    (env : Env) (number : ℤ) (block : Block) (w : World)
    → IsI64 number
    → get_prop_i64 w latest_block_number ≤ℤ number
    → get_prop_i64
        (advance_head number block (index_block env number block (store_block number block w)))
        latest_block_number
      ≡ number
unfolding store_block get_prop_i64
latest-placed env number block w range le =
    let stored = store_block number block w in
    let indexed = index_block env number block stored in
    let same = latest-index_block env number block stored in
    let newer : leb_ℤ (get_prop_i64 indexed latest_block_number) number ≡ true =
      rw same (ground arith) in
    latest-advance_head number block indexed range newer

-- A block that is not older than the head becomes the head.
pub latest-put_block :
    (env : Env) (block : Block) (w : World)
    → IsI64 (number_or (pos 0) block)
    → get_prop_i64 w latest_block_number ≤ℤ number_or (pos 0) block
    → get_prop_i64 (put_block env block w) latest_block_number ≡ number_or (pos 0) block
unfolding put_block
latest-put_block env block w range le = latest-placed env (number_or (pos 0) block) block w range le
