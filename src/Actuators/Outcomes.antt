-- ===== src/Actuators/Outcomes.antt =====
-- What holds of a result of crates/actuators when it is not an error.
use mathlib.Core.Path.{subst}
use tron_rs.Prelude.{
  ◌==◌, Bool-cases, length, Bytes, ℤ, in_i64, checked, Result, ok, err, ◌>>=◌, fail_if, ok_or, ◌≡◌,
  refl, ap, inl, inr, Bool, true, false, ◌&&◌, Option, none, some, [], ◌∷◌, arith,
}
use tron_rs.State.World.{World, StateError, Account, get_account}
use tron_rs.Actuators.{ActuatorError, lift, need_account, Outcome, try, Reason, parse_address}

abbrev pub OnOk : {A : Type 0} → (A → Type 0) → Result ActuatorError A → Type 0
OnOk P (ok a) = P a
OnOk P (err e) = Unit

pub OnOk-bind :
    {A B : Type 0} (P : B → Type 0) (r : Result ActuatorError A) (next : A → Result ActuatorError B)
    → ((a : A) → OnOk P (next a))
    → OnOk P (r >>= next)
OnOk-bind P (ok a) next h = h a
OnOk-bind P (err e) next h = tt

-- What the first result satisfies is known where the second is made.
pub OnOk-then :
    {A B : Type 0} (Q : A → Type 0) (P : B → Type 0) (r : Result ActuatorError A)
    (next : A → Result ActuatorError B)
    → OnOk Q r
    → ((a : A) → Q a → OnOk P (next a))
    → OnOk P (r >>= next)
OnOk-then Q P (ok a) next h f = f a h
OnOk-then Q P (err e) next h f = tt

abbrev or_else : {A : Type 0} → A → Result ActuatorError A → A
or_else a (ok b) = b
or_else a (err e) = a

pub OnOk-at :
    {A : Type 0} (P : A → Type 0) (r : Result ActuatorError A) (a : A) → OnOk P r → r ≡ ok a → P a
OnOk-at P (ok b) a h e = subst P (ap (or_else a) e) h
OnOk-at P (err x) a h e = ground arith

-- A result that is not an error is only made where `C` holds.
pub record Ensures {A : Type 0} (C : Type 0) (r : Result ActuatorError A) : Type 0 where
  pub holds : (a : A) → r ≡ ok a → C

pub given-Ensures : {A C : Type 0} {r : Result ActuatorError A} → C → Ensures C r
given-Ensures c = record { holds = λ a e. c }

pub bind-Ensures :
    {A B C : Type 0} (r : Result ActuatorError A) (next : A → Result ActuatorError B)
    → ((a : A) → r ≡ ok a → Ensures C (next a))
    → Ensures C (r >>= next)
bind-Ensures (ok a) next h = h a refl
bind-Ensures (err e) next h = record { holds = λ a run. ground arith }

pub fail_if-ok : (b : Bool) (e : ActuatorError) (t : Unit {0}) → fail_if b e ≡ ok t → b ≡ false
fail_if-ok b e t run = ground arith

-- A check that fails changes nothing, and what follows it may use what it has found.
pub try_then :
    {A : Type 0} (K : World → Type 0) (Q : A → Type 0) (w : World) (r : Result ActuatorError A)
    (next : A → Outcome)
    → K w
    → OnOk Q r
    → ((a : A) → Q a → K (next a).0)
    → K (try w r next).0
try_then K Q w (ok a) next k q h = h a q
try_then K Q w (err e) next k q h = k

pub OnOk-true : {A : Type 0} (r : Result ActuatorError A) → OnOk (λ _. Unit {0}) r
OnOk-true (ok a) = tt
OnOk-true (err e) = tt

pub need_account_found :
    (w : World) (owner : Bytes) (missing : ActuatorError)
    → OnOk (λ account. get_account w owner ≡ ok (some account)) (need_account w owner missing)
unfolding need_account lift
need_account_found w owner missing = go (get_account w owner)
  where
    go :
        (r : Result StateError (Option Account))
        → OnOk (λ account. r ≡ ok (some account)) (lift r >>= λ found. ok_or found missing)
    go (ok none) = tt
    go (ok (some account)) = refl
    go (err e) = tt

pub OnOk-given :
    {A C : Type 0} (P : A → Type 0) (r : Result ActuatorError A)
    → (C → OnOk P r)
    → OnOk (λ a. C → P a) r
OnOk-given P (ok a) h = h
OnOk-given P (err e) h = tt

pub parse_address-same :
    (bytes : Bytes) (reason : Reason) → OnOk (λ addr. addr ≡ bytes) (parse_address bytes reason)
unfolding parse_address
parse_address-same [] reason = tt
parse_address-same (prefix ∷ body) reason =
    elim (Bool-cases ((length body == 20) && (prefix == 0x41))) [
      | inl e ↦ rw e refl
      | inr e ↦ rw e tt
    ]

pub need_account-known :
    (w : World) (owner : Bytes) (account : Account) (missing : ActuatorError)
    → get_account w owner ≡ ok (some account)
    → need_account w owner missing ≡ ok account
unfolding need_account lift
need_account-known w owner account missing e = rw e refl

pub checked-same : (x : ℤ) (e : ActuatorError) → OnOk (λ y. y ≡ x) (ok_or (checked x) e)
checked-same x e = elim (Bool-cases (in_i64 x)) [ inl h ↦ rw h refl | inr h ↦ rw h tt ]

pub fail_if-false : (b : Bool) (e : ActuatorError) → OnOk (λ _. b ≡ false) (fail_if b e)
fail_if-false true e = tt
fail_if-false false e = refl

pub OnOk-map :
    {A : Type 0} (P Q : A → Type 0) (r : Result ActuatorError A)
    → OnOk P r
    → ((a : A) → P a → Q a)
    → OnOk Q r
OnOk-map P Q (ok a) h f = f a h
OnOk-map P Q (err e) h f = tt
