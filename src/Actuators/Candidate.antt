-- ===== src/Actuators/Candidate.antt =====
-- crates/actuators/src/witness.rs: an account becomes a witness, and changes its url. `text` is the
-- standard library's `String::from_utf8_lossy`, on bytes.
pub mod Register
pub mod Update
pub mod Lifecycle
use tron_rs.Prelude.{
  leb, ◌==◌, if◌then◌else◌, length, Bytes, bytes_eq, ℤ, pos, ltb_ℤ, Result, ℕ, Bool, ◌&&◌, not,
  Option, some,
}
use tron_rs.State.World.{World, Witness, valid, account_upgrade_cost, read_cell, get_prop_i64}
use tron_rs.Actuators.{ActuatorError, lift}

abbrev pub default_account_upgrade_cost : ℤ
default_account_upgrade_cost = pos 9_999_000_000

abbrev pub max_url_len : ℕ
max_url_len = 256

unfoldable pub valid_url : Bytes → Bool
valid_url url = not (length url == 0) && leb (length url) max_url_len

unfoldable pub get_witness : World → Bytes → Result ActuatorError (Option Witness)
unfolding lift read_cell
get_witness w addr = lift (read_cell (w.witnesses addr))

-- Under the address that the record names.
unfoldable pub put_witness : Witness → World → World
put_witness witness w = record w {
  witnesses = λ a. if bytes_eq witness.address a then some (valid witness) else w.witnesses a;
}

unfoldable pub upgrade_cost : World → ℤ
unfolding get_prop_i64
upgrade_cost w =
    let cost = get_prop_i64 w account_upgrade_cost in
    if ltb_ℤ (pos 0) cost then cost else default_account_upgrade_cost
