-- ===== src/Actuators/Delegation.antt =====
-- crates/actuators/src/delegate.rs: an account lets another one use its frozen TRX. What both accounts
-- hold, and the records of the delegations, which are kept under owner, receiver and lock.
pub mod Delegate
pub mod Undelegate
pub mod Amounts
pub mod Moves
pub mod Back
pub mod Returned
pub mod Undone
use tron_rs.Prelude.{
  if◌then◌else◌, Bytes, bytes_eq, ℤ, pos, ◌+ℤ◌, ltb_ℤ, eqb_ℤ, saturating, add_i64, sub_i64, Result,
  Bool, ◌&&◌, ◌||◌, Option, none, some, List, [], ◌∷◌, ◌++◌,
}
use tron_rs.State.World.{
  World, FreezeV2, AccountResource, Account, DelegatedResource, valid, read_cell,
}
use tron_rs.Actuators.{ActuatorError, lift}
use tron_rs.Actuators.Stake.{bandwidth, energy}

-- `BLOCK_PRODUCED_INTERVAL_MS` and the default lock period, in blocks.
abbrev pub block_produced_interval_ms : ℤ
block_produced_interval_ms = pos 3_000

abbrev pub default_lock_period_blocks : ℤ
default_lock_period_blocks = pos 86_400

-- The amounts of the resource, added from the left.
unfoldable pub add_amounts : ℤ → List FreezeV2 → ℤ → ℤ
add_amounts acc [] resource = acc
add_amounts acc (f ∷ frozen) resource =
    if eqb_ℤ f.resource resource
    then add_amounts (saturating (acc +ℤ f.amount)) frozen resource
    else add_amounts acc frozen resource

unfoldable pub frozen_v2_amount : Account → ℤ → ℤ
unfolding add_amounts
frozen_v2_amount account resource = add_amounts (pos 0) account.frozen_v2 resource

-- Onto the first entry of the resource, or a new entry at the end.
unfoldable pub add_frozen_v2 : List FreezeV2 → ℤ → ℤ → List FreezeV2
add_frozen_v2 [] resource delta = (record { resource = resource; amount = delta }) ∷ []
add_frozen_v2 (f ∷ frozen) resource delta =
    let rest = add_frozen_v2 frozen resource delta in
    if eqb_ℤ f.resource resource
    then (record f { amount = add_i64 f.amount delta }) ∷ frozen
    else f ∷ rest

abbrev pub no_resource : AccountResource
no_resource = record {
  frozen_balance_for_energy = none;
  delegated_frozen_v2_balance_for_energy = pos 0;
  acquired_delegated_frozen_v2_balance_for_energy = pos 0;
}

-- `account_resource`, or its default.
unfoldable pub resource_of : Account → AccountResource
resource_of account = elim account.account_resource [ none ↦ no_resource | some r ↦ r ]

unfoldable pub owner_delegated : Account → ℤ → ℤ
unfolding resource_of
owner_delegated account resource =
    if eqb_ℤ resource bandwidth
    then account.delegated_frozen_v2_balance_for_bandwidth
    else (resource_of account).delegated_frozen_v2_balance_for_energy

unfoldable pub add_owner_delegated : Account → ℤ → ℤ → Account
unfolding resource_of
add_owner_delegated account resource delta =
    if eqb_ℤ resource bandwidth
    then record account {
      delegated_frozen_v2_balance_for_bandwidth =
          add_i64 account.delegated_frozen_v2_balance_for_bandwidth delta;
    }
    else record account {
      account_resource = some (record (resource_of account) {
        delegated_frozen_v2_balance_for_energy =
            add_i64 (resource_of account).delegated_frozen_v2_balance_for_energy delta;
      });
    }

unfoldable pub receiver_acquired : Account → ℤ → ℤ
unfolding resource_of
receiver_acquired account resource =
    if eqb_ℤ resource bandwidth
    then account.acquired_delegated_frozen_v2_balance_for_bandwidth
    else (resource_of account).acquired_delegated_frozen_v2_balance_for_energy

-- 0 when the present amount is smaller than what is taken.
unfoldable pub next_acquired : ℤ → ℤ → ℤ
next_acquired cur delta =
    if ltb_ℤ delta (pos 0) && ltb_ℤ cur (sub_i64 (pos 0) delta) then pos 0 else add_i64 cur delta

unfoldable pub add_receiver_acquired : Account → ℤ → ℤ → Account
unfolding resource_of receiver_acquired next_acquired
add_receiver_acquired account resource delta =
    let next = next_acquired (receiver_acquired account resource) delta in
    if eqb_ℤ resource bandwidth
    then record account { acquired_delegated_frozen_v2_balance_for_bandwidth = next }
    else record account {
      account_resource =
          some (record (resource_of account) {
            acquired_delegated_frozen_v2_balance_for_energy = next;
          });
    }

unfoldable pub delegation_key : Bytes → Bytes → Bool → Bytes
delegation_key owner receiver lock = owner ++ (receiver ++ ((if lock then 1 else 0) ∷ []))

unfoldable pub get_delegation :
    World → Bytes → Bytes → Bool → Result ActuatorError (Option DelegatedResource)
unfolding lift read_cell delegation_key
get_delegation w owner receiver lock =
    lift (read_cell (w.delegations (delegation_key owner receiver lock)))

unfoldable pub put_delegation : Bytes → Bytes → Bool → DelegatedResource → World → World
unfolding delegation_key
put_delegation owner receiver lock rec w = record w {
  delegations = λ k.
      if bytes_eq (delegation_key owner receiver lock) k then some (valid rec) else w.delegations k;
}

unfoldable pub delete_delegation : Bytes → Bytes → Bool → World → World
unfolding delegation_key
delete_delegation owner receiver lock w = record w {
  delegations =
      λ k. if bytes_eq (delegation_key owner receiver lock) k then none else w.delegations k;
}

unfoldable pub rec_frozen : DelegatedResource → ℤ → ℤ
rec_frozen rec resource =
    if eqb_ℤ resource bandwidth
    then rec.frozen_balance_for_bandwidth
    else rec.frozen_balance_for_energy

unfoldable pub rec_set_frozen : DelegatedResource → ℤ → ℤ → DelegatedResource
rec_set_frozen rec resource value =
    if eqb_ℤ resource bandwidth
    then record rec { frozen_balance_for_bandwidth = value }
    else record rec { frozen_balance_for_energy = value }

unfoldable pub rec_expire : DelegatedResource → ℤ → ℤ
rec_expire rec resource =
    if eqb_ℤ resource bandwidth then rec.expire_time_for_bandwidth else rec.expire_time_for_energy

unfoldable pub rec_set_expire : DelegatedResource → ℤ → ℤ → DelegatedResource
rec_set_expire rec resource value =
    if eqb_ℤ resource bandwidth
    then record rec { expire_time_for_bandwidth = value }
    else record rec { expire_time_for_energy = value }

unfoldable pub rec_is_empty : DelegatedResource → Bool
rec_is_empty rec =
    eqb_ℤ rec.frozen_balance_for_bandwidth (pos 0) && eqb_ℤ rec.frozen_balance_for_energy (pos 0)

-- A record between two accounts that holds nothing.
abbrev pub new_record : Bytes → Bytes → DelegatedResource
new_record owner receiver = record {
  from_address = owner;
  to_address = receiver;
  frozen_balance_for_bandwidth = pos 0;
  frozen_balance_for_energy = pos 0;
  expire_time_for_bandwidth = pos 0;
  expire_time_for_energy = pos 0;
}

-- `unwrap_or`
abbrev pub or_new : Bytes → Bytes → Option DelegatedResource → DelegatedResource
or_new owner receiver none = new_record owner receiver
or_new owner receiver (some rec) = rec

unfoldable pub resource_valid : ℤ → Bool
resource_valid resource = eqb_ℤ resource bandwidth || eqb_ℤ resource energy
