-- ===== src/Actuators/Dex/Atomic.antt =====
-- An execution of crates/actuators/src/exchange.rs that fails has changed nothing.
use tron_rs.Prelude.{ℤ, Result, ok, err, ◌≡◌, refl}
use tron_rs.State.World.{World}
use tron_rs.Actuators.{ActuatorError, Outcome, try}
use tron_rs.Actuators.Dex.Create
use tron_rs.Actuators.Dex.Inject
use tron_rs.Actuators.Dex.Withdraw
use tron_rs.Actuators.Dex.Swap
use tron_rs.Actuators.Dex.{Floats}

-- A result is a failure only if the world has not changed.
record Clean (w : World) (outcome : Outcome) : Type 0 where
  unchanged : (e : ActuatorError) → outcome.1 ≡ err e → outcome.0 ≡ w

try-Clean :
    {A : Type 0} (w : World) (r : Result ActuatorError A) (next : A → Outcome)
    → ((a : A) → Clean w (next a))
    → Clean w (try w r next)
try-Clean w (err f) next rest = record { unchanged = λ e h. refl }
try-Clean w (ok a) next rest = rest a

success-Clean : (w w' : World) (fee : ℤ) → Clean w (w', ok fee)
success-Clean w w' fee = record { unchanged = λ e h. cc }

create-Clean : (w : World) (c : Create.ExchangeCreateContract) → Clean w (Create.execute w c)
unfolding Create.execute
create-Clean w c = search (try-Clean, success-Clean) depth 9

-- The creation of a pool that fails changes nothing.
pub create_err :
    (w : World) (c : Create.ExchangeCreateContract) (e : ActuatorError)
    → (Create.execute w c).1 ≡ err e
    → (Create.execute w c).0 ≡ w
create_err w c e h = (create-Clean w c).unchanged e h

inject-Clean : (w : World) (c : Inject.ExchangeInjectContract) → Clean w (Inject.execute w c)
unfolding Inject.execute
inject-Clean w c = search (try-Clean, success-Clean) depth 9

-- An injection that fails changes nothing.
inject_err :
    (w : World) (c : Inject.ExchangeInjectContract) (e : ActuatorError)
    → (Inject.execute w c).1 ≡ err e
    → (Inject.execute w c).0 ≡ w
inject_err w c e h = (inject-Clean w c).unchanged e h

withdraw-Clean :
    (w : World) (c : Withdraw.ExchangeWithdrawContract) → Clean w (Withdraw.execute w c)
unfolding Withdraw.execute
withdraw-Clean w c = search (try-Clean, success-Clean) depth 9

-- A withdrawal that fails changes nothing.
pub withdraw_err :
    (w : World) (c : Withdraw.ExchangeWithdrawContract) (e : ActuatorError)
    → (Withdraw.execute w c).1 ≡ err e
    → (Withdraw.execute w c).0 ≡ w
withdraw_err w c e h = (withdraw-Clean w c).unchanged e h

swap-Clean :
    (floats : Floats) (w : World) (c : Swap.ExchangeTransactionContract)
    → Clean w (Swap.execute floats w c)
unfolding Swap.execute
swap-Clean floats w c = search (try-Clean, success-Clean) depth 9

-- A swap that fails changes nothing.
pub swap_err :
    (floats : Floats) (w : World) (c : Swap.ExchangeTransactionContract) (e : ActuatorError)
    → (Swap.execute floats w c).1 ≡ err e
    → (Swap.execute floats w c).0 ≡ w
swap_err floats w c e h = (swap-Clean floats w c).unchanged e h
