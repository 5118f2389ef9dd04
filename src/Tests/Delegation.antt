-- ===== src/Tests/Delegation.antt =====
-- The delegations of crates/actuators/src/delegate.rs at concrete inputs.
use tron_rs.Prelude.{
  if◌then◌else◌, Bytes, bytes_eq, pos, ◌+ℤ◌, ◌*ℤ◌, int_laws, wrap_i64, add_i64, mul_i64, ok, ◌≡◌,
  refl, true, false, none, some, [], ◌∷◌, arith,
}
use tron_rs.Tests.Toy.{zeros, blank_world, blank_account}
use tron_rs.State.World.{World, Account, valid, get_account, get_prop_i64}
use tron_rs.Actuators.Delegation.{get_delegation, owner_delegated, receiver_acquired, rec_frozen}
use tron_rs.Actuators.Delegation.Delegate.{DelegateResourceContract, validate, execute}
use tron_rs.Actuators.Delegation.Delegate
use tron_rs.Actuators.Delegation.Undelegate.{UnDelegateResourceContract}
use tron_rs.Actuators.Delegation.Undelegate
use tron_rs.Actuators.Delegation.Amounts.{Position, IsPosition, delegated_by, returned_by}
use tron_rs.Actuators.Delegation.Moves.{Holds, delegate_refines}
use tron_rs.Actuators.Delegation.Returned.{undelegate_refines}
use tron_rs.Actuators.Delegation.Undone.{delegate_then_undelegate, return_of}

abbrev alice : Bytes
alice = 0x41 ∷ 1 ∷ zeros 19

abbrev bob : Bytes
bob = 0x41 ∷ 2 ∷ zeros 19

abbrev alices : Account
alices = record blank_account {
  address = alice;
  frozen_v2 =
      (record { resource = pos 0; amount = pos 4_000_000 })
      ∷ (record { resource = pos 1; amount = pos 9_000_000 })
      ∷ [];
}

abbrev bobs : Account
bobs = record blank_account { address = bob }

-- Alice has frozen 9 TRX for energy, and nothing is delegated.
abbrev lender : World
lender = record blank_world {
  accounts = λ a.
      if bytes_eq a alice
      then some (valid alices)
      else if bytes_eq a bob
      then some (valid bobs)
      else none;
}

abbrev lend : DelegateResourceContract
lend = record {
  owner_address = alice;
  receiver_address = bob;
  resource = pos 1;
  balance = pos 5_000_000;
  lock = false;
  lock_period = pos 0;
}

abbrev at_first : Position
at_first = record { frozen = pos 9_000_000; delegated = pos 0; acquired = pos 0; recorded = pos 0 }

at_first-IsPosition : IsPosition at_first
at_first-IsPosition = record {
  frozen_min = omega arith;
  recorded_min = omega arith;
  owner_has = omega arith;
  receiver_has = omega arith;
  owner_max = omega int_laws;
  receiver_max = omega int_laws;
}

lender-Holds : Holds lender alice bob (pos 1) false at_first
unfolding bytes_eq get_account get_delegation owner_delegated receiver_acquired rec_frozen
lender-Holds = record {
  apart = refl;
  account = alices;
  has_owner = refl;
  other = bobs;
  has_receiver = refl;
  found = none;
  record_read = refl;
  frozen = refl;
  delegated = refl;
  acquired = refl;
  recorded = refl;
}

lend_passes : Delegate.validate lender lend ≡ ok (pos 0)
unfolding Delegate.validate get_account bytes_eq ◌+ℤ◌
lend_passes = refl

nothing_locked : get_delegation lender alice bob true ≡ ok none
unfolding get_delegation
nothing_locked = refl

delegate_refines_example :
    ((Delegate.execute lender lend).1 ≡ ok (pos 0))
    × Holds
        (Delegate.execute lender lend).0
        alice
        bob
        (pos 1)
        false
        (delegated_by at_first (pos 5_000_000))
    × IsPosition (delegated_by at_first (pos 5_000_000))
    × ((a : Bytes)
        → bytes_eq alice a ≡ false
        → bytes_eq bob a ≡ false
        → get_account (Delegate.execute lender lend).0 a ≡ get_account lender a)
delegate_refines_example =
    delegate_refines lender lend at_first (pos 0) lender-Holds at_first-IsPosition lend_passes

abbrev lent : World
lent = (Delegate.execute lender lend).0

abbrev take_two : UnDelegateResourceContract
take_two = record {
  owner_address = alice;
  receiver_address = bob;
  resource = pos 1;
  balance = pos 2_000_000;
}

take_two_passes : Undelegate.validate lent take_two ≡ ok (pos 0)
unfolding Undelegate.validate Delegate.execute get_account bytes_eq add_i64 wrap_i64 ◌+ℤ◌
take_two_passes = refl

lent_unlocked : get_delegation lent alice bob true ≡ ok none
unfolding get_delegation Delegate.execute get_account bytes_eq
lent_unlocked = refl

undelegate_refines_example :
    ((Undelegate.execute lent take_two).1 ≡ ok (pos 0))
    × Holds
        (Undelegate.execute lent take_two).0
        alice
        bob
        (pos 1)
        false
        (returned_by (delegated_by at_first (pos 5_000_000)) (pos 2_000_000))
    × IsPosition (returned_by (delegated_by at_first (pos 5_000_000)) (pos 2_000_000))
undelegate_refines_example =
    let made =
      delegate_refines lender lend at_first (pos 0) lender-Holds at_first-IsPosition lend_passes in
    undelegate_refines lent take_two (delegated_by at_first (pos 5_000_000)) (pos 0) made.1 made.2
      lent_unlocked take_two_passes

delegate_then_undelegate_example :
    (Undelegate.validate lent (return_of lend) ≡ ok (pos 0))
    × ((Undelegate.execute lent (return_of lend)).1 ≡ ok (pos 0))
    × Holds (Undelegate.execute lent (return_of lend)).0 alice bob (pos 1) false at_first
delegate_then_undelegate_example =
    delegate_then_undelegate lender lend at_first (pos 0) lender-Holds at_first-IsPosition refl
      nothing_locked lend_passes

-- A lock of 3074457345618259 blocks: its time in milliseconds wraps to less than 0, so that the delegation counts as
-- past its time at once.
forever_lock_expires_at_once :
    Undelegate.validate
      (Delegate.execute lender
        (record lend { lock = true; lock_period = pos 3_074_457_345_618_259 })).0
      (return_of lend)
    ≡ ok (pos 0)
unfolding Undelegate.validate Delegate.execute get_account bytes_eq add_i64 wrap_i64 ◌+ℤ◌
    get_prop_i64 mul_i64 ◌*ℤ◌
forever_lock_expires_at_once = refl

forever_lock_passes :
    Delegate.validate lender (record lend { lock = true; lock_period = pos 3_074_457_345_618_259 })
    ≡ ok (pos 0)
unfolding Delegate.validate get_account bytes_eq ◌+ℤ◌
forever_lock_passes = refl
