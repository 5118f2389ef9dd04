-- ===== src/Node/Finality/Emit.antt =====
-- `emit_commit` of crates/node/src/net.rs: the node's own commit. The state is that of the intake,
-- and the result the bytes that are advertised, if there are any.
use mathlib.Core.Path.{subst}
use tron_rs.Prelude.{
  if◌then◌else◌, Bool-cases, length, length-append, Bytes, ℤ, pos, ◌<ℤ◌, ltb_ℤ, eqb_ℤ, IsI64, ◌+◌,
  ◌≡◌, refl, sym, ap, ◌∙◌, ◌⊎◌, inl, inr, Bool, true, false, ◌&&◌, Option, none, some, List, [],
  ◌∷◌, ◌++◌, arith,
}
use tron_rs.Crypto.{Crypto, IsSound, recover_address-sign}
use tron_rs.Consensus.Pbft.{accept_pbft_message, is_finalized, solidified_block}
use tron_rs.Consensus.Pbft.Commit.{
  PbftCommit, encode, digest, recover_signer, IsSized, decode-encode, decode,
}
use tron_rs.Node.Finality.{
  Handler, contains, confirm, on_pbft_commit, on_decoded, Signers, signers_of, set_signers, counts,
  advance,
}

-- `WitnessCommitter`
pub record Committer : Type 0 where
  pub key : Bytes
  pub address : Bytes

unfoldable pub signed_commit : Crypto → Committer → ℤ → Bytes → PbftCommit
unfolding digest
signed_commit crypto w block_num block_id =
    let sig = crypto.sign_digest w.key (digest crypto block_num block_id) in
    record { block_num = block_num; block_id = block_id; signature = sig.0 ++ (27 + sig.1) ∷ [] }

unfoldable pub emit_commit :
    Crypto → Handler → Option Committer → ℤ → Bytes → Handler × Option Bytes
unfolding on_pbft_commit contains encode signed_commit
emit_commit crypto h none block_num block_id = (h, none)
emit_commit crypto h (some w) block_num block_id =
    if eqb_ℤ h.allow_pbft (pos 1) && contains h.active w.address
    then (let bytes = encode (signed_commit crypto w block_num block_id) in
        ((on_pbft_commit crypto h bytes).0, some bytes))
    else (h, none)

signed_commit-IsSized :
    (crypto : Crypto) (w : Committer) (n : ℤ) (id : Bytes)
    → IsSound crypto
    → IsI64 n
    → length id ≡ 32
    → IsSized (signed_commit crypto w n id)
unfolding signed_commit
signed_commit-IsSized crypto w n id s num id_len =
    let d = digest crypto n id in
    record {
      num = num;
      id = id_len;
      sig =
          length-append (crypto.sign_digest w.key d).0 ((27 + (crypto.sign_digest w.key d).1) ∷ [])
          ∙ rw (s.sign_len w.key d);
    }

recover_signer-signed_commit :
    (crypto : Crypto) (w : Committer) (n : ℤ) (id : Bytes)
    → IsSound crypto
    → w.address ≡ crypto.address_from_public_key (crypto.public_key w.key)
    → recover_signer crypto (signed_commit crypto w n id) ≡ some w.address
unfolding recover_signer signed_commit
recover_signer-signed_commit crypto w n id s own =
    recover_address-sign crypto w.key (digest crypto n id) s ∙ rw own

emitted :
    (crypto : Crypto) (h : Handler) (w : Committer) (n : ℤ) (id bytes : Bytes)
    → (emit_commit crypto h (some w) n id).1 ≡ some bytes
    → bytes ≡ encode (signed_commit crypto w n id)
unfolding emit_commit
emitted crypto h w n id bytes e = ground arith

on_decoded-counted :
    (crypto : Crypto) (peer : Handler) (commit : PbftCommit) (a : Bytes)
    → recover_signer crypto commit ≡ some a
    → contains peer.active a ≡ true
    → accept_pbft_message true commit.block_num peer.head peer.solidified ≡ true
    → on_decoded crypto peer commit ≡ confirm peer commit.block_num a
unfolding on_decoded
on_decoded-counted crypto peer commit a signer active gate = rw (signer, on_decoded, active, gate)

on_pbft_commit-decoded :
    (crypto : Crypto) (peer : Handler) (bytes : Bytes) (commit : PbftCommit)
    → peer.allow_pbft ≡ pos 1
    → decode bytes ≡ some commit
    → on_pbft_commit crypto peer bytes ≡ on_decoded crypto peer commit
unfolding on_pbft_commit
on_pbft_commit-decoded crypto peer bytes commit on decoded =
    let is_on : eqb_ℤ peer.allow_pbft (pos 1) ≡ true = rw on in rw (is_on, decoded, on_pbft_commit)

-- What a peer makes of a confirmation of the block `n` by the witness `a`: it has had it and changes
-- nothing; or it says that it is new, and the witness stands with those that have confirmed the block,
-- except where the peer has thereby solidified a higher block than before.
abbrev pub TakenIn : Handler → ℤ → Bytes → Handler × Bool → Type 0
TakenIn peer n a (peer', added) =
    ((contains (signers_of peer.confirmations n) a ≡ true) × ((peer' ≡ peer) × (added ≡ false)))
    ⊎ ((contains (signers_of peer.confirmations n) a ≡ false)
        × ((added ≡ true)
            × ((signers_of peer'.confirmations n ≡ a ∷ signers_of peer.confirmations n)
                ⊎ (peer.solidified <ℤ peer'.solidified))))

signers_of-set_signers :
    (conf : Signers) (n : ℤ) (ws : List Bytes) → signers_of (set_signers conf n ws) n ≡ ws
unfolding signers_of set_signers
signers_of-set_signers [] n ws = ground arith
signers_of-set_signers ((k, old) ∷ conf) n ws = ground (arith, signers_of-set_signers conf n ws)

advance_or_same :
    (h : Handler) (found : Option ℤ)
    → (advance h found ≡ h) ⊎ (h.solidified <ℤ (advance h found).solidified)
unfolding advance
advance_or_same h none = inl refl
advance_or_same h (some solid) = elim (Bool-cases (ltb_ℤ h.solidified solid)) [
  | inl higher ↦ inr (rw (higher, advance) (ground arith))
  | inr lower ↦ inl (rw (lower, advance) refl)
]

confirm-TakenIn : (peer : Handler) (n : ℤ) (a : Bytes) → TakenIn peer n a (confirm peer n a)
unfolding confirm
confirm-TakenIn peer n a =
    let old = signers_of peer.confirmations n in
    let peer' = record peer { confirmations = set_signers peer.confirmations n (a ∷ old) } in
    let stands = signers_of-set_signers peer.confirmations n (a ∷ old) in
    let found = solidified_block (counts peer'.confirmations) peer.head (length peer.active) in
    elim (Bool-cases (contains old a)) [
      | inl had ↦ inl (had, (rw (had, confirm) refl, rw (had, confirm) refl))
      | inr new ↦ elim (Bool-cases (is_finalized (length (a ∷ old)) (length peer.active))) [
        | inl final ↦ elim (advance_or_same peer' found) [
          | inl same ↦
              inr
                (new, (rw (new, confirm, final) refl, inl (rw (new, confirm, final, same) stands)))
          | inr higher ↦
              inr (new, (rw (new, confirm, final) refl, inr (rw (new, confirm, final) higher)))
        ]
        | inr few ↦ inr (new, (rw (new, confirm, few) refl, inl (rw (new, confirm, few) stands)))
      ]
    ]

-- With sound cryptography and a witness that holds its own address, the commit that a node
-- advertises for a block reaches the count of every peer that has PBFT on, counts the witness as
-- active and lets the block through its gate: the peer does with it what it does for a confirmation
-- of this block by this witness. Either it has had this confirmation and changes nothing, or the witness now
-- stands with those that have confirmed the block, except where the peer has thereby solidified a
-- higher block than before.
pub emit_commit-counted :
    (crypto : Crypto) (h peer : Handler) (w : Committer) (n : ℤ) (id bytes : Bytes)
    → IsSound crypto
    → w.address ≡ crypto.address_from_public_key (crypto.public_key w.key)
    → IsI64 n
    → length id ≡ 32
    → (emit_commit crypto h (some w) n id).1 ≡ some bytes
    → peer.allow_pbft ≡ pos 1
    → contains peer.active w.address ≡ true
    → accept_pbft_message true n peer.head peer.solidified ≡ true
    → (on_pbft_commit crypto peer bytes ≡ confirm peer n w.address)
      × TakenIn peer n w.address (on_pbft_commit crypto peer bytes)
unfolding signed_commit
emit_commit-counted crypto h peer w n id bytes s own num id_len e on active gate =
    let commit = signed_commit crypto w n id in
    let sized = signed_commit-IsSized crypto w n id s num id_len in
    let taken =
      on_pbft_commit-decoded crypto peer bytes commit on
        (ap decode (emitted crypto h w n id bytes e) ∙ decode-encode commit sized)
      ∙ on_decoded-counted crypto peer commit w.address
          (recover_signer-signed_commit crypto w n id s own) active gate in
    (taken, subst (TakenIn peer n w.address) (sym taken) (confirm-TakenIn peer n w.address))
