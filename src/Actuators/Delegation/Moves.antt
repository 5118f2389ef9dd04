-- ===== src/Actuators/Delegation/Moves.antt =====
-- A validated `DelegateResourceActuator` of crates/actuators/src/delegate.rs moves its amount.
use mathlib.Core.Path.{subst}
use tron_rs.Prelude.{
  Bytes, bytes_eq, ℤ, pos, ◌+ℤ◌, ◌-ℤ◌, ◌≤ℤ◌, ltb_ℤ, int_laws, i64_max, IsI64, saturating, add_i64,
  sub_i64, add_i64-in, sub_i64-in, ok, ◌≡◌, refl, ap, ◌∙◌, Bool, false, Option, some, List, [], ◌∷◌,
  arith,
}
use tron_rs.Prelude.Endian.{bytes_eq_refl, bytes_eq_sym}
use tron_rs.State.World.{
  World, Account, DelegatedResource, read_cell, get_account, put_account, FreezeV2,
}
use tron_rs.State.World.Laws.{get_account-put_account}
use tron_rs.Actuators.{
  invalid_address, invalid_receiver, lift, parse_address, need_account, owner_account_missing,
  receiver_missing,
}
use tron_rs.Actuators
use tron_rs.Actuators.Outcomes.{need_account-known}
use tron_rs.Actuators.Delegation.{
  resource_of, frozen_v2_amount, owner_delegated, receiver_acquired, delegation_key, get_delegation,
  put_delegation, rec_frozen, or_new, add_frozen_v2, next_acquired, add_receiver_acquired,
  rec_set_frozen,
}
use tron_rs.Actuators.Delegation.Delegate.{
  DelegateResourceContract, validate, execute, delegate_out, expire_time, extend,
}
use tron_rs.Actuators.Transfer.Exact.{saturating-in}
use tron_rs.Actuators.Delegation.Amounts.{
  Position, entries, entries-add_frozen_v2, frozen_v2-add, rec_frozen-set, rec_frozen-set_expire,
  IsPosition, delegated_by, add_amounts-single, owner_delegated-add, receiver_acquired-add,
}

-- The world has the four amounts for two different accounts: the owner has one frozen entry of the
-- resource.
pub record Holds (w : World) (owner receiver : Bytes) (resource : ℤ) (lock : Bool) (p : Position)
    : Type 0 where
  pub apart : bytes_eq owner receiver ≡ false
  pub account : Account
  pub has_owner : get_account w owner ≡ ok (some account)
  pub other : Account
  pub has_receiver : get_account w receiver ≡ ok (some other)
  pub found : Option DelegatedResource
  pub record_read : get_delegation w owner receiver lock ≡ ok found
  pub frozen : entries resource account.frozen_v2 ≡ p.frozen ∷ []
  pub delegated : owner_delegated account resource ≡ p.delegated
  pub acquired : receiver_acquired other resource ≡ p.acquired
  pub recorded : rec_frozen (or_new owner receiver found) resource ≡ p.recorded

pub get_delegation-put_delegation :
    (w : World) (owner receiver : Bytes) (lock : Bool) (rec : DelegatedResource)
    → get_delegation (put_delegation owner receiver lock rec w) owner receiver lock ≡ ok (some rec)
unfolding get_delegation put_delegation lift read_cell
get_delegation-put_delegation w owner receiver lock rec =
    rw (bytes_eq_refl (delegation_key owner receiver lock)) refl

-- Putting an account leaves the delegations.
pub get_delegation-put_account :
    (w : World) (a owner receiver : Bytes) (lock : Bool) (account : Account)
    → get_delegation (put_account a account w) owner receiver lock
      ≡ get_delegation w owner receiver lock
unfolding get_delegation put_account
get_delegation-put_account w a owner receiver lock account = refl

pub get_account-put_delegation :
    (w : World) (a owner receiver : Bytes) (lock : Bool) (rec : DelegatedResource)
    → get_account (put_delegation owner receiver lock rec w) a ≡ get_account w a
unfolding get_account put_delegation
get_account-put_delegation w a owner receiver lock rec = refl

pub put_account-same :
    (w : World) (a : Bytes) (account : Account)
    → get_account (put_account a account w) a ≡ ok (some account)
put_account-same w a account = get_account-put_account a a account w ∙ rw (bytes_eq_refl a)

pub put_account-other :
    (w : World) (a b : Bytes) (account : Account)
    → bytes_eq a b ≡ false
    → get_account (put_account a account w) b ≡ get_account w b
put_account-other w a b account e = get_account-put_account a b account w ∙ rw e

-- What `validate` has checked of the contract.
pub accepted :
    (w : World) (c : DelegateResourceContract) (account : Account) (r : ℤ)
    → get_account w c.owner_address ≡ ok (some account)
    → validate w c ≡ ok r
    → (parse_address c.owner_address invalid_address ≡ ok c.owner_address)
      × (parse_address c.receiver_address invalid_receiver ≡ ok c.receiver_address)
      × (pos 1 ≤ℤ c.balance)
      × (c.balance ≤ℤ frozen_v2_amount account c.resource)
unfolding validate parse_address need_account lift
accepted w c account r found run = ground arith

pub executed :
    (w : World) (c : DelegateResourceContract) (account other : Account)
    (found : Option DelegatedResource)
    → parse_address c.owner_address invalid_address ≡ ok c.owner_address
    → parse_address c.receiver_address invalid_receiver ≡ ok c.receiver_address
    → bytes_eq c.owner_address c.receiver_address ≡ false
    → get_account w c.owner_address ≡ ok (some account)
    → get_account w c.receiver_address ≡ ok (some other)
    → get_delegation w c.owner_address c.receiver_address c.lock ≡ ok found
    → let w₁ = put_account c.owner_address (delegate_out account c.resource c.balance) w in
      let w₂ =
        put_account c.receiver_address (add_receiver_acquired other c.resource c.balance) w₁ in
      let rec =
        extend
          (or_new c.owner_address c.receiver_address found)
          c.resource
          c.balance
          (expire_time w c) in
      execute w c ≡ (put_delegation c.owner_address c.receiver_address c.lock rec w₂, ok (pos 0))
unfolding execute
executed w c account other found owner receiver apart has_owner has_receiver recorded =
    let w₁ = put_account c.owner_address (delegate_out account c.resource c.balance) w in
    let w₂ = put_account c.receiver_address (add_receiver_acquired other c.resource c.balance) w₁ in
    let here =
      put_account-other w c.owner_address c.receiver_address
        (delegate_out account c.resource c.balance) apart
      ∙ has_receiver in
    let record_read =
      get_delegation-put_account w₁ c.receiver_address c.owner_address c.receiver_address c.lock
        (add_receiver_acquired other c.resource c.balance)
      ∙ get_delegation-put_account w c.owner_address c.owner_address c.receiver_address c.lock
          (delegate_out account c.resource c.balance)
      ∙ recorded in
    rw
      (
        owner,
        receiver,
        need_account-known w c.owner_address account (Actuators.execute owner_account_missing)
            has_owner,
        need_account-known w₁ c.receiver_address other (Actuators.execute receiver_missing) here,
        record_read,
      )
      refl

frozen_out :
    (account : Account) (resource amount balance : ℤ)
    → entries resource account.frozen_v2 ≡ amount ∷ []
    → (pos 0 ≤ℤ balance) × (balance ≤ℤ amount) × (amount ≤ℤ i64_max)
    → entries resource (delegate_out account resource balance).frozen_v2 ≡ (amount -ℤ balance) ∷ []
unfolding delegate_out
frozen_out account resource amount balance e b =
    let taken = record account {
      frozen_v2 = add_frozen_v2 account.frozen_v2 resource (sub_i64 (pos 0) balance);
    } in
    let negated : sub_i64 (pos 0) balance ≡ pos 0 -ℤ balance =
      sub_i64-in (pos 0) balance (omega (int_laws, b), omega (int_laws, b)) in
    let summed : add_i64 amount (pos 0 -ℤ balance) ≡ amount +ℤ (pos 0 -ℤ balance) =
      add_i64-in amount (pos 0 -ℤ balance) (omega (int_laws, b), omega (int_laws, b)) in
    let same : amount +ℤ (pos 0 -ℤ balance) ≡ amount -ℤ balance = omega int_laws in
    ap (entries resource) (frozen_v2-add taken resource balance)
    ∙ entries-add_frozen_v2 account.frozen_v2 resource amount (sub_i64 (pos 0) balance) e
    ∙ ap (λ x. x ∷ []) (ap (add_i64 amount) negated ∙ summed ∙ same)

next_acquired-grows :
    (cur balance : ℤ)
    → pos 0 ≤ℤ balance
    → IsI64 (cur +ℤ balance)
    → next_acquired cur balance ≡ cur +ℤ balance
unfolding next_acquired
next_acquired-grows cur balance h room =
    let not_less : ltb_ℤ balance (pos 0) ≡ false = ground arith in
    rw not_less (add_i64-in cur balance room)

rec_frozen-extend :
    (rec : DelegatedResource) (resource balance time : ℤ)
    → rec_frozen (extend rec resource balance time) resource
      ≡ add_i64 (rec_frozen rec resource) balance
unfolding extend
rec_frozen-extend rec resource balance time =
    rec_frozen-set_expire (rec_set_frozen rec resource (add_i64 (rec_frozen rec resource) balance))
      resource time
    ∙ rec_frozen-set rec resource (add_i64 (rec_frozen rec resource) balance)

pub frozen_apart :
    (account : Account) (frozen : List FreezeV2) (resource : ℤ)
    → owner_delegated (record account { frozen_v2 = frozen }) resource
      ≡ owner_delegated account resource
unfolding owner_delegated resource_of
frozen_apart account frozen resource = refl

owner_delegated-out :
    (account : Account) (resource balance : ℤ)
    → owner_delegated (delegate_out account resource balance) resource
      ≡ add_i64 (owner_delegated account resource) balance
unfolding delegate_out
owner_delegated-out account resource balance =
    let left = add_frozen_v2 account.frozen_v2 resource (sub_i64 (pos 0) balance) in
    owner_delegated-add (record account { frozen_v2 = left }) resource balance
    ∙ ap (λ x. add_i64 x balance) (frozen_apart account left resource)

available_is :
    (account : Account) (resource amount : ℤ)
    → entries resource account.frozen_v2 ≡ amount ∷ []
    → IsI64 amount
    → frozen_v2_amount account resource ≡ amount
unfolding frozen_v2_amount
available_is account resource amount e range =
    let zero_add : pos 0 +ℤ amount ≡ amount = omega int_laws in
    add_amounts-single (pos 0) account.frozen_v2 resource amount e
    ∙ ap saturating zero_add
    ∙ saturating-in amount range

sum_of : (x y b : ℤ) → x ≡ y → IsI64 (y +ℤ b) → add_i64 x b ≡ y +ℤ b
sum_of x y b e room = ap (λ z. add_i64 z b) e ∙ add_i64-in y b room

delegated-IsPosition :
    (p : Position) (balance : ℤ)
    → IsPosition p
    → (pos 0 ≤ℤ balance) × (balance ≤ℤ p.frozen)
    → IsPosition (delegated_by p balance)
delegated-IsPosition p balance h b = record {
  frozen_min = omega (int_laws, b);
  recorded_min = omega (int_laws, b, h.recorded_min);
  owner_has = omega (int_laws, h.owner_has);
  receiver_has = omega (int_laws, h.receiver_has);
  owner_max = omega (int_laws, h.owner_max);
  receiver_max = omega (int_laws, h.receiver_max);
}

frozen_in : (p : Position) → IsPosition p → IsI64 p.frozen
frozen_in p h = (
  omega (int_laws, h.frozen_min),
  omega (int_laws, h.frozen_min, h.recorded_min, h.owner_has, h.owner_max),
)

rooms :
    (p : Position) (balance : ℤ)
    → IsPosition p
    → pos 1 ≤ℤ balance
    → balance ≤ℤ p.frozen
    → IsI64 (p.delegated +ℤ balance) × IsI64 (p.acquired +ℤ balance) × IsI64 (p.recorded +ℤ balance)
rooms p balance h positive covered = (
  (omega (int_laws, h.recorded_min, h.owner_has, positive), omega (int_laws, h.owner_max, covered)),
  (
    omega (int_laws, h.recorded_min, h.receiver_has, positive),
    omega (int_laws, h.receiver_max, covered),
  ),
  (omega (int_laws, h.recorded_min, positive), omega (int_laws, h.owner_has, h.owner_max, covered)),
)

-- A validated delegation, between two different stored accounts whose amounts fit an i64 together and of
-- which the owner has one frozen entry of the resource, succeeds and does to the four
-- amounts what is specified: it takes its balance from what the owner has frozen and adds it to what the
-- owner has delegated, to what the receiver has acquired and to the record. No other account changes.
pub delegate_refines :
    (w : World) (c : DelegateResourceContract) (p : Position) (r : ℤ)
    → Holds w c.owner_address c.receiver_address c.resource c.lock p
    → IsPosition p
    → validate w c ≡ ok r
    → ((execute w c).1 ≡ ok (pos 0))
      × Holds
          (execute w c).0
          c.owner_address
          c.receiver_address
          c.resource
          c.lock
          (delegated_by p c.balance)
      × IsPosition (delegated_by p c.balance)
      × ((a : Bytes)
          → bytes_eq c.owner_address a ≡ false
          → bytes_eq c.receiver_address a ≡ false
          → get_account (execute w c).0 a ≡ get_account w a)
delegate_refines w c p r h q run =
    let (owner, receiver, positive, enough) = accepted w c h.account r h.has_owner run in
    let held = available_is h.account c.resource p.frozen h.frozen (frozen_in p q) in
    let covered : c.balance ≤ℤ p.frozen = subst (λ x. c.balance ≤ℤ x) held enough in
    let out = delegate_out h.account c.resource c.balance in
    let into = add_receiver_acquired h.other c.resource c.balance in
    let w₁ = put_account c.owner_address out w in
    let w₂ = put_account c.receiver_address into w₁ in
    let rec = or_new c.owner_address c.receiver_address h.found in
    let rec' = extend rec c.resource c.balance (expire_time w c) in
    let w₃ = put_delegation c.owner_address c.receiver_address c.lock rec' w₂ in
    let apart' = bytes_eq_sym c.receiver_address c.owner_address ∙ h.apart in
    let after : Holds w₃ c.owner_address c.receiver_address c.resource c.lock
        (delegated_by p c.balance) =
      record {
        apart = h.apart;
        account = out;
        has_owner =
            get_account-put_delegation w₂ c.owner_address c.owner_address c.receiver_address c.lock
              rec'
            ∙ put_account-other w₁ c.receiver_address c.owner_address into apart'
            ∙ put_account-same w c.owner_address out;
        other = into;
        has_receiver =
            get_account-put_delegation w₂ c.receiver_address c.owner_address c.receiver_address
              c.lock rec'
            ∙ put_account-same w₁ c.receiver_address into;
        found = some rec';
        record_read =
            get_delegation-put_delegation w₂ c.owner_address c.receiver_address c.lock rec';
        frozen =
            frozen_out h.account c.resource p.frozen c.balance h.frozen
              ((omega (int_laws, positive)), covered, (frozen_in p q).1);
        delegated =
            owner_delegated-out h.account c.resource c.balance
            ∙ sum_of _ p.delegated c.balance h.delegated (rooms p c.balance q positive covered).0;
        acquired =
            receiver_acquired-add h.other c.resource c.balance
            ∙ ap (λ x. next_acquired x c.balance) h.acquired
            ∙ next_acquired-grows p.acquired c.balance (omega (int_laws, positive))
                (rooms p c.balance q positive covered).1;
        recorded =
            rec_frozen-extend rec c.resource c.balance (expire_time w c)
            ∙ sum_of _ p.recorded c.balance h.recorded (rooms p c.balance q positive covered).2;
      } in
    rw
      (executed w c h.account h.other h.found owner receiver h.apart h.has_owner h.has_receiver
        h.record_read)
      (
        refl,
        after,
        delegated-IsPosition p c.balance q ((omega (int_laws, positive)), covered),
        λ a e f.
            get_account-put_delegation w₂ a c.owner_address c.receiver_address c.lock rec'
            ∙ put_account-other w₁ c.receiver_address a into f
            ∙ put_account-other w c.owner_address a out e,
      )
