-- ===== src/Consensus/Reward/Laws.antt =====
-- No reward is created: crates/consensus/src/reward.rs.
use tron_rs.Prelude.{
  Bool-cases, All, Bytes, ℤ, pos, negsuc, pos_part, ◌+ℤ◌, ◌≤ℤ◌, leb_ℤ, int_laws, i64_max,
  saturating, wrap_i64-in, sub_i64, sub_i64-in, mul_pos, quot_pos, pos-pos_part, ℕ, ◌+◌, ◌-◌, ◌*◌,
  ◌/◌, ◌^◌, ◌≤◌, ◌<◌, ◌≡◌, refl, ap, ◌∙◌, inl, inr, ◌||◌, List, [], ◌∷◌, map, arith,
}
use native.Mathlib.Nat.{div-mul-le_self, div-le_of_le-mul}
use tron_rs.Consensus.Reward.{split_reward, total_votes, share, distribute_to_voters, clamp_percent}

-- The clamped percentage is a number from 0 to 100.
clamp_percent-range : (b : ℤ) → (p : ℕ) × (clamp_percent b ≡ pos p) × (p ≤ 100)
clamp_percent-range b = (pos_part (clamp_percent b), ground arith, ground arith)

cut-le : (value p : ℕ) → p ≤ 100 → value * p / 100 ≤ value
cut-le value p h = grind arith

-- A reward that 100 times stays in range is split exactly: the two parts add up to it and neither
-- is negative, whatever the brokerage.
split_reward-conserves :
    (value : ℕ) (brokerage : ℤ)
    → 100 * value < 2 ^ 63
    → let (cut, pool) = split_reward (pos value) brokerage in
      (cut +ℤ pool ≡ pos value) × (pos 0 ≤ℤ cut) × (pos 0 ≤ℤ pool)
unfolding split_reward
split_reward-conserves value brokerage h =
    let (p, e, le) = clamp_percent-range brokerage in
    let cut = value * p / 100 in
    let fits : value * p ≤ 100 * value = grind arith in
    let exact : saturating (pos (value * p)) ≡ pos (value * p) = ground arith in
    let le_value : cut ≤ value = cut-le value p le in
    let rest : sub_i64 (pos value) (pos cut) ≡ pos (value - cut) =
      sub_i64-in _ _ (omega int_laws) ∙ (omega int_laws) in
    rw (e, mul_pos value p, exact, quot_pos (value * p) 100, rest)
      (omega int_laws, omega arith, omega arith)

-- No weight is negative.
abbrev pub Weights : List (Bytes × ℤ) → Type 0
Weights = All (λ v. pos 0 ≤ℤ v.1)

-- What the voters get and how many they are.
unfoldable pub paid : List (Bytes × ℤ) → ℤ
paid [] = pos 0
paid ((_, x) ∷ shares) = x +ℤ paid shares

abbrev shares : ℕ → ℕ → List (Bytes × ℤ) → List (Bytes × ℤ)
shares pool total = map (λ v. (v.0, share (pos pool) v.1 (pos total)))

div-mul-le : (a t : ℕ) → a / t * t ≤ a
div-mul-le a t = div-mul-le_self a t

swapped : (pool n total : ℕ) → n ≤ total → pool * n ≤ total * pool
swapped pool n total le = grind arith

join_bound :
    (q s k w pool total : ℕ)
    → q * total ≤ pool * k
    → s * total ≤ pool * w
    → (q + s) * total ≤ pool * (k + w)
join_bound q s k w pool total h g = omega arith

share_pos :
    (pool n total : ℕ)
    → pos pool ≤ℤ i64_max
    → 0 < total
    → n ≤ total
    → share (pos pool) (pos n) (pos total) ≡ pos (pool * n / total)
unfolding share
share_pos pool n total h t le =
    rw (mul_pos, quot_pos)
      (wrap_i64-in _
        (omega (arith, div-le_of_le-mul total {m = pool * n} {n = pool} (swapped pool n total le))))

total_votes_nonneg : (votes : List (Bytes × ℤ)) → Weights votes → pos 0 ≤ℤ total_votes votes
unfolding total_votes
total_votes_nonneg [] h = omega arith
total_votes_nonneg ((a, w) ∷ votes) h = omega (int_laws, total_votes_nonneg votes h.1, h.0)

nothing_paid :
    (votes : List (Bytes × ℤ))
    → let none_paid : List (Bytes × ℤ) = map (λ v. (v.0, pos 0)) votes in
      (paid none_paid ≡ pos 0) × Weights none_paid
unfolding paid
nothing_paid [] = (refl, tt)
nothing_paid (v ∷ votes) =
    let (e, w) = nothing_paid votes in (rw e (omega int_laws), (omega arith, w))

cancel_total : (s pool w total : ℕ) → s * total ≤ pool * w → w ≤ total → 0 < total → s ≤ pool
cancel_total s pool w total h le t = grind arith

shares_bound :
    (pool total : ℕ) (votes : List (Bytes × ℤ))
    → pos pool ≤ℤ i64_max
    → 0 < total
    → Weights votes
    → total_votes votes ≤ℤ pos total
    → (s : ℕ) × (w : ℕ) × (paid (shares pool total votes) ≡ pos s)
      × (total_votes votes ≡ pos w)
      × (s * total ≤ pool * w)
      × (Weights (shares pool total votes))
unfolding paid total_votes
shares_bound pool total [] h t ws le = (0, 0, refl, refl, omega arith, tt)
shares_bound pool total ((a, negsuc k) ∷ votes) h t (wn, ws) le = absurd (omega arith)
shares_bound pool total ((a, pos k) ∷ votes) h t (wn, ws) le =
    let rest : total_votes votes ≤ℤ pos total = omega int_laws in
    let (s, w, es, ew, bound, good) = shares_bound pool total votes h t ws rest in
    let small : k ≤ total = omega (int_laws, total_votes_nonneg votes ws) in
    let q = pool * k / total in
    let eq : share (pos pool) (pos k) (pos total) ≡ pos q = share_pos pool k total h t small in
    (
      q + s,
      k + w,
      rw (eq, es) (omega int_laws),
      rw ew (omega int_laws),
      join_bound q s k w pool total (div-mul-le (pool * k) total) bound,
      (rw eq (omega arith), good),
    )

-- The voters together never get more than the pool, and none gets less than nothing.
pub distribute_to_voters-le_pool :
    (pool : ℕ) (votes : List (Bytes × ℤ))
    → pos pool ≤ℤ i64_max
    → Weights votes
    → (paid (distribute_to_voters (pos pool) votes) ≤ℤ pos pool)
      × Weights (distribute_to_voters (pos pool) votes)
unfolding distribute_to_voters
distribute_to_voters-le_pool pool votes h w =
    let total = total_votes votes in
    let t : total ≡ pos (pos_part total) = pos-pos_part total (total_votes_nonneg votes w) in
    elim (Bool-cases (leb_ℤ total (pos 0) || leb_ℤ (pos pool) (pos 0))) [
      | inl nothing ↦ rw (nothing, (nothing_paid votes).0) (omega arith, (nothing_paid votes).1)
      | inr positive ↦
          let up : 0 < pos_part total = ground arith in
          let (s, w', es, ew, bound, good) =
            shares_bound pool (pos_part total) votes h up w (omega arith) in
          let le : s ≤ pool =
            cancel_total s pool w' (pos_part total) bound (omega (arith, ap pos_part ew)) up in
          rw (positive, t, es) (omega (arith, le), good)
    ]
