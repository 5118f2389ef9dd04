-- ===== src/Actuators/Market.antt =====
-- crates/actuators/src/market: the order book of the on-chain market. Its helpers on tokens
-- (mod.rs) are the functions of the exchange.
pub mod Price
pub mod Book
pub mod Sell
pub mod Cancel
use tron_rs.Prelude.{if◌then◌else◌, ℤ, pos, ltb_ℤ, ℕ}
use tron_rs.State.World.{World, PropKey, get_prop_i64}

abbrev pub max_match_num : ℕ
max_match_num = 20

abbrev pub default_market_quantity_limit : ℤ
default_market_quantity_limit = pos 1_000_000_000_000_000

-- `MarketOrder.State`
abbrev pub active : ℤ
active = pos 0

abbrev pub inactive : ℤ
inactive = pos 1

abbrev pub canceled : ℤ
canceled = pos 2

-- `get_prop_i64(key)?.max(0)`
unfoldable pub fee_of : World → PropKey → ℤ
fee_of w key = let fee = get_prop_i64 w key in if ltb_ℤ (pos 0) fee then fee else pos 0
