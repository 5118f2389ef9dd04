-- ===== src/Actuators.antt =====
-- crates/actuators: the system contracts. An actuator's `validate` reads the world state, and its
-- `execute` changes it; what was written before an error stays written.
pub mod Transfer
pub mod Withdraw
pub mod Brokerage
pub mod Dex
pub mod Market
pub mod Stake
pub mod Vote
pub mod Governance
pub mod Candidate
pub mod Maintenance
pub mod Delegation
pub mod StakeV1
pub mod Outcomes
use tron_rs.Prelude.{
  ◌==◌, if◌then◌else◌, length, Bytes, ℤ, pos, ◌+ℤ◌, ◌-ℤ◌, leb_ℤ, checked, Result, ok, err, ◌>>=◌,
  ◌>>◌, fail_if, ok_or, ◌&&◌, not, none, some, [], ◌∷◌,
}
use tron_rs.State.World.{World, Account, StateError, PropKey, get_account, feature_enabled}

-- The messages of the errors, without the values that some of them print.
pub data Reason : Type 0 where
  invalid_address invalid_owner_address invalid_to_address : Reason
  transfer_to_self no_owner_account amount_not_positive long_overflow : Reason
  balance_not_sufficient owner_account_missing to_account_missing : Reason
  account_not_exists no_allowance withdrawn_too_recently nothing_to_withdraw : Reason
  brokerage_out_of_range not_a_witness too_many_matches maker_order_missing : Reason
  maker_account_missing order_not_exists order_not_active order_not_owned : Reason
  invalid_sell_token invalid_buy_token : Reason
  not_supported no_unfreeze_list no_balance_for_fee : Reason
  invalid_first_token invalid_second_token : Reason
  same_tokens balance_not_positive over_limit balance_not_enough : Reason
  first_token_not_enough second_token_not_enough asset_not_sufficient : Reason
  exchange_not_exists not_creator exchange_missing invalid_token token_not_in_exchange : Reason
  exchange_closed quant_not_positive calculated_not_positive expected_not_positive : Reason
  token_not_enough another_token_not_enough exchange_not_enough another_not_positive : Reason
  not_precise_enough less_than_expected : Reason
  no_votes too_many_votes invalid_vote_address vote_not_positive : Reason
  witness_not_exists votes_over_power : Reason
  frozen_not_positive below_one_trx over_balance resource_code_error : Reason
  no_frozen_balance bad_unfreeze_balance too_many_unfreezes frozen_not_sufficient : Reason
  no_parameters bad_parameter proposal_not_exists proposal_expired proposal_cancelled : Reason
  approved_before not_approved_before not_proposed_by_owner : Reason
  invalid_url witness_has_existed below_upgrade_cost account_does_not_exist witness_does_not_exist :
      Reason
  receiver_not_supported bad_duration not_yet_unfreezable : Reason
  delegate_below_one_trx over_available invalid_receiver delegate_to_self receiver_missing : Reason
  negative_lock_period shorter_than_last_lock receiver_is_contract : Reason
  no_delegation undelegate_not_positive insufficient_delegation unlocked_missing : Reason
  no_asset_balance insufficient_fee : Reason

-- `panic` is a division by zero, which ends the process.
pub data ActuatorError : Type 0 where
  validate : Reason → ActuatorError
  execute : Reason → ActuatorError
  state : StateError → ActuatorError
  panic : ActuatorError

-- `?` on a state error.
unfoldable pub lift : {A : Type 0} → Result StateError A → Result ActuatorError A
lift (ok a) = ok a
lift (err e) = err (state e)

-- `bytes.try_into::<[u8; 21]>` and `Address::from_bytes`.
unfoldable pub parse_address : Bytes → Reason → Result ActuatorError Bytes
parse_address [] reason = err (validate reason)
parse_address (prefix ∷ body) reason =
    if (length body == 20) && (prefix == 0x41) then ok (prefix ∷ body) else err (validate reason)

-- The account, or the error of an absent one.
unfoldable pub need_account : World → Bytes → ActuatorError → Result ActuatorError Account
unfolding lift
need_account w addr missing = do found ← lift (get_account w addr); ok_or found missing

unfoldable pub require_feature : World → PropKey → Result ActuatorError (Unit {0})
require_feature w key = fail_if (not (feature_enabled w key)) (validate not_supported)

-- What `execute` has done: the world as it is then, and its result.
abbrev pub Outcome : Type 0
Outcome = World × Result ActuatorError ℤ

-- The steps that follow a check which changes nothing, on a state of any kind.
abbrev pub attempt :
    {S A B : Type 0}
    → S
    → Result ActuatorError A
    → (A → S × Result ActuatorError B)
    → S × Result ActuatorError B
attempt s (ok a) next = next a
attempt s (err e) next = (s, err e)

-- The steps of `execute` that follow a check which changes nothing.
abbrev pub try : {A : Type 0} → World → Result ActuatorError A → (A → Outcome) → Outcome
try w (ok a) next = next a
try w (err e) next = (w, err e)

-- `checked_sub(amount).filter(|b| *b >= 0).ok_or_else(…)`
unfoldable pub debit : ℤ → ℤ → Reason → Result ActuatorError ℤ
debit balance amount reason = elim (checked (balance -ℤ amount)) [
  | none ↦ err (execute reason)
  | some b ↦ if leb_ℤ (pos 0) b then ok b else err (execute reason)
]

-- `checked_add(amount).ok_or_else(…)`
unfoldable pub credit : ℤ → ℤ → Result ActuatorError ℤ
credit balance amount = ok_or (checked (balance +ℤ amount)) (execute long_overflow)
