-- ===== src/Consensus/Schedule/Laws.antt =====
-- The schedule of crates/consensus/src/lib.rs is total, periodic and fair.
use tron_rs.Prelude.{
  leb, Bool-cases, length, get_elem?, Bytes, pos, ◌≤ℤ◌, int_laws, add_i64, sub_i64, mul_i64,
  add_i64-in, sub_i64-in, mul_i64-in, mul_pos, quot_pos, ℕ, zero, suc, ◌+◌, ◌-◌, ◌*◌, ◌/◌, ◌%◌, ◌^◌,
  ◌<◌, ◌≡◌, refl, sym, ap, ◌∙◌, ◌⊎◌, inl, inr, false, some, List, [], ◌∷◌, arith,
}
use native.Mathlib.Nat.{mod-lt, mod-eq_of_lt, div-one, mod-add-mod, add-mod_right}
use tron_rs.Consensus.Schedule.{
  next_maintenance_time, need_maintenance, scheduled_witness, maintenance_period_ms,
}

get_elem?-some {ℓ} :
    {A : Type ℓ} (xs : List A) (i : ℕ) → i < length xs → (a : A) × (get_elem? xs i ≡ some a)
get_elem?-some [] i h = elim h [ ]
get_elem?-some (x ∷ xs) zero h = (x, refl)
get_elem?-some (x ∷ xs) (suc i) h = get_elem?-some xs i (omega arith)

times_one : (n : ℕ) → n * 1 ≡ n
times_one n = omega arith

one_bound : (n k : ℕ) → k % (suc n * 1) / 1 < suc n
one_bound n k = rw (times_one (suc n), div-one) (mod-lt k {m = suc n} (omega arith))

mod_shift :
    (head n i slot : ℕ)
    → i < n
    → (head % n + slot ≡ i) ⊎ (head % n + slot ≡ i + n)
    → (head + slot) % n ≡ i
mod_shift head n i slot h (inl e) = sym (mod-add-mod head n slot) ∙ (rw e (mod-eq_of_lt h))
mod_shift head n i slot h (inr e) =
    sym (mod-add-mod head n slot) ∙ (rw e (add-mod_right i n ∙ mod-eq_of_lt h))

-- While slot numbers do not overflow, the producer of a slot is the active witness at the slot
-- number modulo the number of witnesses.
pub scheduled_witness-index :
    (w : Bytes) (ws : List Bytes) (head slot : ℕ)
    → head + slot < 2 ^ 64
    → scheduled_witness (w ∷ ws) head slot ≡ get_elem? (w ∷ ws) ((head + slot) % length (w ∷ ws))
unfolding scheduled_witness
scheduled_witness-index w ws head slot h =
    ap (get_elem? (w ∷ ws)) (rw (mod-eq_of_lt h, times_one (length (w ∷ ws)), div-one) refl)

-- Every slot has a producer, whatever the slot number.
pub scheduled_witness-some :
    (w : Bytes) (ws : List Bytes) (head slot : ℕ)
    → (a : Bytes) × (scheduled_witness (w ∷ ws) head slot ≡ some a)
unfolding scheduled_witness
scheduled_witness-some w ws head slot =
    get_elem?-some (w ∷ ws) ((head + slot) % 2 ^ 64 % (length (w ∷ ws) * 1) / 1)
      (one_bound (length ws) ((head + slot) % 2 ^ 64))

-- In any window of as many slots as there are witnesses each witness has a slot.
scheduled_witness-fair :
    (w : Bytes) (ws : List Bytes) (head i : ℕ)
    → i < length (w ∷ ws)
    → head + length (w ∷ ws) < 2 ^ 64
    → (slot : ℕ) × (slot < length (w ∷ ws))
      × (scheduled_witness (w ∷ ws) head slot ≡ get_elem? (w ∷ ws) i)
scheduled_witness-fair w ws head i h room =
    let n = length (w ∷ ws) in
    let below : head % n < n = mod-lt head (omega arith) in
    let found = λ (slot : ℕ) (lt : slot < n) (e : (head + slot) % n ≡ i).
      scheduled_witness-index w ws head slot (omega arith) ∙ ap (get_elem? (w ∷ ws)) e in
    elim (Bool-cases (leb (head % n) i)) [
      | inl up ↦ (
        i - head % n,
        omega arith,
        found (i - head % n) (omega arith)
            (mod_shift head n i (i - head % n) h (inl (ground arith))),
      )
      | inr down ↦ (
        i + n - head % n,
        ground arith,
        found (i + n - head % n) (ground arith)
            (mod_shift head n i (i + n - head % n) h (inr (omega arith))),
      )
    ]

-- From a maintenance time that is not in the future the next one lies after the block, at most one
-- period after it, and a whole number of periods after the old one; so the block that has just
-- moved it does not ask for maintenance again.
next_maintenance_time-after :
    (current elapsed : ℕ)
    → current + elapsed + 2 * maintenance_period_ms < 2 ^ 63
    → let next = next_maintenance_time (pos current) (pos (current + elapsed)) in
      (need_maintenance next (pos (current + elapsed)) ≡ false)
      × (next ≤ℤ pos (current + elapsed + maintenance_period_ms))
      × (next ≡ pos (current + (elapsed / maintenance_period_ms + 1) * maintenance_period_ms))
unfolding next_maintenance_time need_maintenance
next_maintenance_time-after current elapsed h =
    let gap : sub_i64 (pos (current + elapsed)) (pos current) ≡ pos elapsed =
      sub_i64-in _ _ (omega int_laws) ∙ (omega int_laws) in
    let rounds = elapsed / maintenance_period_ms in
    let more : add_i64 (pos rounds) (pos 1) ≡ pos (rounds + 1) =
      add_i64-in _ _ (omega int_laws) ∙ (omega int_laws) in
    let span : mul_i64 (pos (rounds + 1)) (pos maintenance_period_ms)
        ≡ pos ((rounds + 1) * maintenance_period_ms) =
      mul_i64-in _ _ (rw mul_pos (omega arith)) ∙ mul_pos _ _ in
    let total : add_i64 (pos current) (pos ((rounds + 1) * maintenance_period_ms))
        ≡ pos (current + (rounds + 1) * maintenance_period_ms) =
      add_i64-in _ _ (omega int_laws) ∙ (omega int_laws) in
    rw (gap, quot_pos, more, span, total) (ground arith, omega arith, refl)
