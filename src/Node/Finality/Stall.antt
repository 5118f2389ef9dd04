-- ===== src/Node/Finality/Stall.antt =====
-- Finality and pruning in crates/node/src/net.rs: `solidified_block` counts from block 1, and the
-- pruning drops block 1.
use tron_rs.Prelude.{
  Bool-cases, Option-cases, length, Bytes, ℤ, pos, negsuc, ◌≤ℤ◌, ◌<ℤ◌, ltb_ℤ, eqb_ℤ, eqb_ℤ_iff, ℕ,
  zero, suc, ◌≡◌, refl, ◌∙◌, inl, inr, true, ◌&&◌, none, some, List, [], ◌∷◌, arith,
}
use tron_rs.Consensus.Pbft.{
  is_finalized, count_of, final_at, solid_from, solidified_block, accept_pbft_message,
}
use tron_rs.Crypto.{Crypto}
use tron_rs.Consensus.Pbft.Commit.{PbftCommit, decode, recover_signer}
use tron_rs.Node.Finality.{
  Signers, Handler, contains, signers_of, set_signers, counts, retain_from, advance, confirm,
  intake, on_pbft_commit, run_commits, on_decoded,
}

-- Finality has passed block 1, and the map holds no block 1.
pub record IsPruned (h : Handler) : Type 0 where
  pub past : pos 2 ≤ℤ h.solidified
  pub no_first : count_of (counts h.confirmations) (pos 1) ≡ none

count_of-set_signers :
    (conf : Signers) (n : ℤ) (ws : List Bytes)
    → pos 2 ≤ℤ n
    → count_of (counts (set_signers conf n ws)) (pos 1) ≡ count_of (counts conf) (pos 1)
unfolding count_of counts set_signers
count_of-set_signers [] n ws h = ground arith
count_of-set_signers ((k, old) ∷ conf) n ws h =
    ground (arith, eqb_ℤ_iff k n, count_of-set_signers conf n ws h)

count_of-retain_from :
    (conf : Signers) (solid : ℤ)
    → pos 2 ≤ℤ solid
    → count_of (counts (retain_from conf solid)) (pos 1) ≡ none
unfolding count_of counts retain_from
count_of-retain_from [] solid h = refl
count_of-retain_from ((k, ws) ∷ conf) solid h = ground (arith, count_of-retain_from conf solid h)

-- Without a count for block 1 nothing is found.
solidified_block-no_first :
    (conf : Signers) (head : ℤ) (total : ℕ)
    → count_of (counts conf) (pos 1) ≡ none
    → solidified_block (counts conf) head total ≡ none
unfolding solidified_block solid_from final_at
solidified_block-no_first conf (pos zero) total e = refl
solidified_block-no_first conf (pos (suc n)) total e = ground arith
solidified_block-no_first conf (negsuc n) total e = refl

-- Pruned, and as far solidified as before.
abbrev Stuck : ℤ → Handler → Type 0
Stuck s h = IsPruned h × (h.solidified ≡ s)

-- Whatever is recorded above block 1 leaves the map without a count for block 1.
recorded :
    (h : Handler) (n : ℤ) (ws : List Bytes) (s : ℤ)
    → pos 2 ≤ℤ n
    → Stuck s h
    → Stuck s (record h { confirmations = set_signers h.confirmations n ws })
recorded h n ws s lo p = (
  record {
    past = p.0.past;
    no_first = count_of-set_signers h.confirmations n ws lo ∙ p.0.no_first;
  },
  p.1,
)

confirm-Stuck :
    (h : Handler) (n : ℤ) (signer : Bytes) (s : ℤ)
    → pos 2 ≤ℤ n
    → Stuck s h
    → Stuck s (confirm h n signer).0
unfolding confirm
confirm-Stuck h n signer s lo p =
    let ws = signer ∷ signers_of h.confirmations n in
    let conf = set_signers h.confirmations n ws in
    let next = recorded h n ws s lo p in
    let idle = solidified_block-no_first conf h.head (length h.active) next.0.no_first in
    elim (Bool-cases (contains (signers_of h.confirmations n) signer)) [
      | inl repeated ↦ rw repeated p
      | inr new ↦ rw new (elim (Bool-cases (is_finalized (length ws) (length h.active))) [
        | inl final ↦ rw (final, idle) next
        | inr short ↦ rw short next
      ])
    ]

intake-Stuck :
    (h : Handler) (n : ℤ) (signer : Bytes) (s : ℤ) → Stuck s h → Stuck s (intake h n signer).0
unfolding intake accept_pbft_message
intake-Stuck h n signer s p =
    elim (Bool-cases (contains h.active signer && accept_pbft_message true n h.head h.solidified)) [
      | inl pass ↦ ground (arith, confirm-Stuck h n signer s (ground (arith, p.0.past)) p)
      | inr fail ↦ ground arith
    ]

on_decoded-Stuck :
    (crypto : Crypto) (h : Handler) (commit : PbftCommit) (s : ℤ)
    → Stuck s h
    → Stuck s (on_decoded crypto h commit).0
unfolding on_decoded
on_decoded-Stuck crypto h commit s p = elim (Option-cases (recover_signer crypto commit)) [
  | inl nobody ↦ rw (nobody, on_decoded) p
  | inr (signer, e) ↦ rw (e, on_decoded) (intake-Stuck h commit.block_num signer s p)
]

on_pbft_commit-Stuck :
    (crypto : Crypto) (h : Handler) (bytes : Bytes) (s : ℤ)
    → Stuck s h
    → Stuck s (on_pbft_commit crypto h bytes).0
unfolding on_pbft_commit
on_pbft_commit-Stuck crypto h bytes s p = elim (Bool-cases (eqb_ℤ h.allow_pbft (pos 1))) [
  | inl on ↦ rw on (elim (Option-cases (decode bytes)) [
    | inl garbled ↦ rw (garbled, on_pbft_commit) p
    | inr (commit, e) ↦ rw (e, on_pbft_commit) (on_decoded-Stuck crypto h commit s p)
  ])
  | inr off ↦ rw off p
]

run_commits-Stuck :
    (crypto : Crypto) (h : Handler) (events : List (ℤ × Bytes)) (s : ℤ)
    → Stuck s h
    → Stuck s (run_commits crypto h events)
unfolding run_commits
run_commits-Stuck crypto h [] s p = p
run_commits-Stuck crypto h ((head, bytes) ∷ events) s p =
    run_commits-Stuck crypto (on_pbft_commit crypto (record h { head = head }) bytes).0 events s (
      on_pbft_commit-Stuck crypto (record h { head = head }) bytes s
        (record { past = p.0.past; no_first = p.0.no_first }, p.1))

-- Once the handler has advanced finality to a block 2 or higher, no sequence of commits, whoever
-- signs them and wherever the head stands, advances it again.
pub finality_stalls :
    (crypto : Crypto) (h : Handler) (solid : ℤ) (events : List (ℤ × Bytes))
    → pos 2 ≤ℤ solid
    → h.solidified <ℤ solid
    → (run_commits crypto (advance h (some solid)) events).solidified ≡ solid
unfolding advance
finality_stalls crypto h solid events lo up =
    let higher : ltb_ℤ h.solidified solid ≡ true = ground arith in
    rw higher
      (run_commits-Stuck crypto
        (record h { solidified = solid; confirmations = retain_from h.confirmations solid }) events
        solid
        (record { past = lo; no_first = count_of-retain_from h.confirmations solid lo }, refl)).1
