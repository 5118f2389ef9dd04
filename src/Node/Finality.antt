-- ===== src/Node/Finality.antt =====
-- `NodeChannelHandler::on_pbft_commit` of crates/node/src/net.rs: the intake of PBFT commits. The
-- state is the part of the handler that it reads and writes: the `ALLOW_PBFT` property, the head,
-- the active witnesses and the solidified block of the world state, and the confirmation map, an
-- association list from a block to the distinct witnesses that have committed it. Reads of the
-- world state that fail fall back to defaults in the source; here they succeed.
pub mod Stall
pub mod Emit
use tron_rs.Prelude.{
  if◌then◌else◌, length, Bytes, bytes_eq, ℤ, pos, ltb_ℤ, leb_ℤ, eqb_ℤ, Bool, true, false, ◌||◌,
  Option, none, some, List, [], ◌∷◌,
}
use tron_rs.Consensus.Pbft.{is_finalized, Confirmations, solidified_block, accept_pbft_message}
use tron_rs.Crypto.{Crypto}
use tron_rs.Consensus.Pbft.Commit.{PbftCommit, decode, recover_signer}

abbrev pub Signers : Type 0
Signers = List (ℤ × List Bytes)

pub record Handler : Type 0 where
  pub allow_pbft : ℤ
  pub head : ℤ
  pub active : List Bytes
  pub solidified : ℤ
  pub confirmations : Signers

-- `iter().any(|w| w == a)` and `HashSet::contains`.
unfoldable pub contains : List Bytes → Bytes → Bool
contains [] a = false
contains (w ∷ ws) a = bytes_eq w a || contains ws a

-- `conf.entry(n).or_default()`
unfoldable pub signers_of : Signers → ℤ → List Bytes
signers_of [] n = []
signers_of ((k, ws) ∷ conf) n = if eqb_ℤ k n then ws else signers_of conf n

unfoldable pub set_signers : Signers → ℤ → List Bytes → Signers
set_signers [] n ws = (n, ws) ∷ []
set_signers ((k, old) ∷ conf) n ws =
    if eqb_ℤ k n then (k, ws) ∷ conf else (k, old) ∷ set_signers conf n ws

-- `conf.iter().map(|(k, v)| (*k, v.len())).collect()`
unfoldable pub counts : Signers → Confirmations
counts [] = []
counts ((k, ws) ∷ conf) = (k, length ws) ∷ counts conf

-- `conf.retain(|&block, _| block >= solid)`
unfoldable pub retain_from : Signers → ℤ → Signers
retain_from [] solid = []
retain_from ((k, ws) ∷ conf) solid =
    let rest = retain_from conf solid in if leb_ℤ solid k then (k, ws) ∷ rest else rest

-- `if let Some(solid) = … { if solid > solidified { … } }`
unfoldable pub advance : Handler → Option ℤ → Handler
unfolding retain_from
advance h none = h
advance h (some solid) =
    if ltb_ℤ h.solidified solid
    then record h { solidified = solid; confirmations = retain_from h.confirmations solid }
    else h

-- From the dedup on: `signer` is an active witness and `n` has passed the gate.
unfoldable pub confirm : Handler → ℤ → Bytes → Handler × Bool
unfolding contains signers_of set_signers counts advance
confirm h n signer =
    let old = signers_of h.confirmations n in
    let new = signer ∷ old in
    let h' = record h { confirmations = set_signers h.confirmations n new } in
    if contains old signer
    then (h, false)
    else if is_finalized (length new) (length h.active)
    then (advance h' (solidified_block (counts h'.confirmations) h.head (length h.active)), true)
    else (h', true)

-- The checks on the decoded commit and its signer.
unfoldable pub intake : Handler → ℤ → Bytes → Handler × Bool
unfolding contains confirm
intake h n signer =
    if contains h.active signer
    then if accept_pbft_message true n h.head h.solidified then confirm h n signer else (h, false)
    else (h, false)

unfoldable pub on_decoded : Crypto → Handler → PbftCommit → Handler × Bool
unfolding intake
on_decoded crypto h commit = elim (recover_signer crypto commit) [
  | none ↦ (h, false)
  | some signer ↦ intake h commit.block_num signer
]

unfoldable pub on_pbft_commit : Crypto → Handler → Bytes → Handler × Bool
unfolding on_decoded
on_pbft_commit crypto h bytes =
    if eqb_ℤ h.allow_pbft (pos 1)
    then elim (decode bytes) [ none ↦ (h, false) | some commit ↦ on_decoded crypto h commit ]
    else (h, false)

-- A run of commits, in the order in which they arrive, while the chain's head moves: each event
-- is the head at that time with the bytes of a commit.
pub run_commits : Crypto → Handler → List (ℤ × Bytes) → Handler
unfolding on_pbft_commit
run_commits crypto h [] = h
run_commits crypto h ((head, bytes) ∷ events) =
    run_commits crypto (on_pbft_commit crypto (record h { head = head }) bytes).0 events
