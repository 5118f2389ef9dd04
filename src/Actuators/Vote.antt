-- ===== src/Actuators/Vote.antt =====
-- crates/actuators/src/vote.rs: an account votes for witnesses with what it has frozen.
pub mod Power
use tron_rs.Prelude.{
  ltb, ◌==◌, length, Bytes, ℤ, pos, ◌+ℤ◌, ◌*ℤ◌, ltb_ℤ, leb_ℤ, checked, saturating, Result, ok,
  ◌>>=◌, ◌>>◌, fail_if, ok_or, ℕ, not, List, [], ◌∷◌,
}
use tron_rs.State.World.{World, FreezeV2, Account, put_account, witness_exists}
use tron_rs.Actuators.{
  ActuatorError, Outcome, invalid_address, long_overflow, owner_account_missing, account_not_exists,
  no_votes, too_many_votes, invalid_vote_address, vote_not_positive, witness_not_exists,
  votes_over_power, parse_address, need_account, try,
}
use tron_rs.Actuators

abbrev pub max_vote_number : ℕ
max_vote_number = 30

abbrev pub vote_precision : ℤ
vote_precision = pos 1_000_000

-- A vote is an address and a count.
pub record VoteWitnessContract : Type 0 where
  pub owner_address : Bytes
  pub votes : List (Bytes × ℤ)

-- The sum of the counts, on top of `sum`.
unfoldable pub check_votes : World → List (Bytes × ℤ) → ℤ → Result ActuatorError ℤ
unfolding parse_address witness_exists
check_votes w [] sum = ok sum
check_votes w (vote ∷ votes) sum = do
  witness ← parse_address vote.0 invalid_vote_address
  fail_if (leb_ℤ vote.1 (pos 0)) (Actuators.validate vote_not_positive)
  fail_if (not (witness_exists w witness)) (Actuators.validate witness_not_exists)
  more ← ok_or (checked (sum +ℤ vote.1)) (Actuators.validate long_overflow)
  check_votes w votes more

-- The amounts that are frozen, added from the left.
unfoldable pub add_frozen_amounts : ℤ → List FreezeV2 → ℤ
add_frozen_amounts acc [] = acc
add_frozen_amounts acc (f ∷ frozen) = add_frozen_amounts (saturating (acc +ℤ f.amount)) frozen

unfoldable pub tron_power_sun : Account → ℤ
unfolding add_frozen_amounts
tron_power_sun account = add_frozen_amounts (pos 0) account.frozen_v2

unfoldable pub validate : World → VoteWitnessContract → Result ActuatorError ℤ
unfolding parse_address check_votes need_account tron_power_sun
validate w c = do
  owner ← parse_address c.owner_address invalid_address
  fail_if (length c.votes == 0) (Actuators.validate no_votes)
  fail_if (ltb max_vote_number (length c.votes)) (Actuators.validate too_many_votes)
  sum ← check_votes w c.votes (pos 0)
  account ← need_account w owner (Actuators.validate account_not_exists)
  scaled ← ok_or (checked (sum *ℤ vote_precision)) (Actuators.validate long_overflow)
  fail_if (ltb_ℤ (tron_power_sun account) scaled) (Actuators.validate votes_over_power)
  ok (pos 0)

-- The new votes replace the old ones.
unfoldable pub execute : World → VoteWitnessContract → Outcome
unfolding parse_address need_account put_account
execute w c = try w (parse_address c.owner_address invalid_address) λ owner.
    try w (need_account w owner (Actuators.execute owner_account_missing))
      λ account. (put_account owner (record account { votes = c.votes }) w, ok (pos 0))
