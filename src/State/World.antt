-- ===== src/State/World.antt =====
-- crates/state/src/lib.rs and features.rs: the records of the world state and their accessors. A
-- column family is a function from keys to what is stored. A stored record is seen through its
-- protobuf codec, which is the prost crate's: it decodes to a record, or the codec refuses it. That
-- a record just written decodes to itself is what the codec documents. The backend itself does not
-- fail. Properties are stored as their bytes, 8 for a number.
pub mod Laws
use tron_rs.Chain.{Block, Transaction}
use tron_rs.Prelude.Endian.{i64_to_be, i64_from_be}
use tron_rs.Prelude.{
  ◌==◌, if◌then◌else◌, length, Bytes, bytes_eq, ℤ, pos, ◌+ℤ◌, eqb_ℤ, saturating, add_i64, Result,
  ok, err, ℕ, Bool, true, false, Option, none, some, List, [],
}

-- `Account.unfrozen_v2` and `frozen_v2`.
pub record UnfreezeV2 : Type 0 where
  pub resource : ℤ
  pub unfreeze_amount : ℤ
  pub unfreeze_expire_time : ℤ

pub record FreezeV2 : Type 0 where
  pub resource : ℤ
  pub amount : ℤ

-- `Account.Frozen`, of the first version of staking.
pub record Frozen : Type 0 where
  pub frozen_balance : ℤ
  pub expire_time : ℤ

-- `Account.AccountResource`, with the fields that are used here.
pub record AccountResource : Type 0 where
  pub frozen_balance_for_energy : Option Frozen
  pub delegated_frozen_v2_balance_for_energy : ℤ
  pub acquired_delegated_frozen_v2_balance_for_energy : ℤ

-- `protocol.Account`, with the fields that the modelled actuators read or write.
pub record Account : Type 0 where
  pub address : Bytes
  pub create_time : ℤ
  pub balance : ℤ
  pub allowance : ℤ
  pub latest_withdraw_time : ℤ
  pub asset_v2 : List (Bytes × ℤ)
  pub frozen_v2 : List FreezeV2
  pub unfrozen_v2 : List UnfreezeV2
  pub votes : List (Bytes × ℤ)
  pub account_type : ℤ
  pub is_witness : Bool
  pub frozen : List Frozen
  pub tron_power : Option Frozen
  pub account_resource : Option AccountResource
  pub delegated_frozen_v2_balance_for_bandwidth : ℤ
  pub acquired_delegated_frozen_v2_balance_for_bandwidth : ℤ

-- `protocol.Witness`, with the fields that are used here.
pub record Witness : Type 0 where
  pub address : Bytes
  pub vote_count : ℤ
  pub url : Bytes
  pub is_jobs : Bool

-- `protocol.DelegatedResource`; `from` and `to` are the two accounts.
pub record DelegatedResource : Type 0 where
  pub from_address : Bytes
  pub to_address : Bytes
  pub frozen_balance_for_bandwidth : ℤ
  pub frozen_balance_for_energy : ℤ
  pub expire_time_for_bandwidth : ℤ
  pub expire_time_for_energy : ℤ

-- `protocol.Exchange`
pub record Exchange : Type 0 where
  pub exchange_id : ℤ
  pub creator_address : Bytes
  pub create_time : ℤ
  pub first_token_id : Bytes
  pub first_token_balance : ℤ
  pub second_token_id : Bytes
  pub second_token_balance : ℤ

-- `MarketOrder`, without the links that stay empty.
pub record MarketOrder : Type 0 where
  pub order_id : Bytes
  pub owner_address : Bytes
  pub create_time : ℤ
  pub sell_token_id : Bytes
  pub sell_token_quantity : ℤ
  pub buy_token_id : Bytes
  pub buy_token_quantity : ℤ
  pub sell_token_quantity_remain : ℤ
  pub sell_token_quantity_return : ℤ
  pub state : ℤ

-- `protocol.Proposal`; the parameters are a map from ids to values.
pub record Proposal : Type 0 where
  pub proposal_id : ℤ
  pub proposer_address : Bytes
  pub parameters : List (ℤ × ℤ)
  pub expiration_time : ℤ
  pub create_time : ℤ
  pub approvals : List Bytes
  pub state : ℤ

pub data Cell (A : Type 0) : Type 0 where
  valid : A → Cell A
  corrupt : Cell A

-- The keys of the dynamic properties that are used here.
pub data PropKey : Type 0 where
  create_new_account_fee burn_trx_amount latest_timestamp : PropKey
  total_net_weight total_energy_weight total_tron_power_weight : PropKey
  latest_exchange_num exchange_create_fee exchange_balance_limit : PropKey
  latest_solidified_block allow_pbft allow_cancel_all_unfreeze_v2 : PropKey
  token_id_num change_delegation : PropKey
  allow_market_transaction market_order_num market_sell_fee market_cancel_fee : PropKey
  market_quantity_limit unfreeze_delay_days allow_new_resource_model : PropKey
  latest_proposal_num active_witnesses account_upgrade_cost min_frozen_time max_frozen_time :
      PropKey
  latest_block_number : PropKey

-- The names of the keys are pairwise different.
abbrev pub tag : PropKey → ℕ
tag create_new_account_fee = 0
tag burn_trx_amount = 1
tag latest_timestamp = 2
tag total_net_weight = 3
tag total_energy_weight = 4
tag total_tron_power_weight = 5
tag latest_exchange_num = 6
tag exchange_create_fee = 7
tag exchange_balance_limit = 8
tag latest_solidified_block = 9
tag allow_pbft = 10
tag allow_cancel_all_unfreeze_v2 = 11
tag token_id_num = 12
tag change_delegation = 13
tag allow_market_transaction = 14
tag market_order_num = 15
tag market_sell_fee = 16
tag market_cancel_fee = 17
tag market_quantity_limit = 18
tag unfreeze_delay_days = 19
tag allow_new_resource_model = 20
tag latest_proposal_num = 21
tag active_witnesses = 22
tag account_upgrade_cost = 23
tag min_frozen_time = 24
tag max_frozen_time = 25
tag latest_block_number = 26

-- The column families of the market; the column of all pairs is read at one key only.
pub record MarketStore : Type 0 where
  pub orders : Bytes → Option (Cell MarketOrder)
  pub pair_prices : Bytes → Option Bytes
  pub price_orders : Bytes → Option Bytes
  pub account_orders : Bytes → Option Bytes
  pub all_pairs : Option Bytes

pub record World : Type 0 where
  pub blocks : ℤ → Option (Cell Block)
  pub block_index : Bytes → Option Bytes
  pub transactions : Bytes → Option (Cell Transaction)
  pub accounts : Bytes → Option (Cell Account)
  pub brokerages : Bytes → Option Bytes
  pub witnesses : Bytes → Option (Cell Witness)
  pub exchanges : ℤ → Option (Cell Exchange)
  pub proposals : ℤ → Option (Cell Proposal)
  pub delegations : Bytes → Option (Cell DelegatedResource)
  pub props : PropKey → Option Bytes
  pub market : MarketStore

-- `StateError::Decode`; a storage error does not happen here.
pub data StateError : Type 0 where
  decode : StateError

-- `match get(..)? { Some(bytes) => Ok(Some(decode(bytes)?)), None => Ok(None) }`
unfoldable pub read_cell : {A : Type 0} → Option (Cell A) → Result StateError (Option A)
read_cell none = ok none
read_cell (some (valid a)) = ok (some a)
read_cell (some corrupt) = err decode

unfoldable pub get_account : World → Bytes → Result StateError (Option Account)
unfolding read_cell
get_account w addr = read_cell (w.accounts addr)

unfoldable pub put_account : Bytes → Account → World → World
put_account addr account w = record w {
  accounts = λ a. if bytes_eq addr a then some (valid account) else w.accounts a;
}

unfoldable pub account_exists : World → Bytes → Bool
account_exists w addr = elim (w.accounts addr) [ none ↦ false | some _ ↦ true ]

unfoldable pub witness_exists : World → Bytes → Bool
witness_exists w addr = elim (w.witnesses addr) [ none ↦ false | some _ ↦ true ]

-- 8 bytes are the value; anything else, and nothing, read as 0.
unfoldable pub prop_value : Option Bytes → ℤ
prop_value none = pos 0
prop_value (some bytes) = if length bytes == 8 then i64_from_be bytes else pos 0

unfoldable pub get_prop_i64 : World → PropKey → ℤ
unfolding prop_value
get_prop_i64 w key = prop_value (w.props key)

unfoldable pub put_prop_i64 : PropKey → ℤ → World → World
put_prop_i64 key value w = record w {
  props = λ k. if tag key == tag k then some (i64_to_be value) else w.props k;
}

unfoldable pub add_prop_i64 : PropKey → ℤ → World → World
unfolding get_prop_i64 put_prop_i64
add_prop_i64 key delta w = put_prop_i64 key (saturating (get_prop_i64 w key +ℤ delta)) w

unfoldable pub burn_trx : ℤ → World → World
unfolding get_prop_i64 put_prop_i64
burn_trx amount w =
    put_prop_i64 burn_trx_amount (saturating (get_prop_i64 w burn_trx_amount +ℤ amount)) w

-- A Normal account with default fields.
unfoldable pub fresh_account : World → Bytes → Account
unfolding get_prop_i64
fresh_account w addr = record {
  address = addr;
  create_time = get_prop_i64 w latest_timestamp;
  balance = pos 0;
  allowance = pos 0;
  latest_withdraw_time = pos 0;
  asset_v2 = [];
  frozen_v2 = [];
  unfrozen_v2 = [];
  votes = [];
  account_type = pos 0;
  is_witness = false;
  frozen = [];
  tron_power = none;
  account_resource = none;
  delegated_frozen_v2_balance_for_bandwidth = pos 0;
  acquired_delegated_frozen_v2_balance_for_bandwidth = pos 0;
}

unfoldable pub create_account : Bytes → World → World
unfolding fresh_account put_account
create_account addr w = put_account addr (fresh_account w addr) w

unfoldable pub put_brokerage : Bytes → ℤ → World → World
put_brokerage addr pct w = record w {
  brokerages = λ a. if bytes_eq addr a then some (i64_to_be pct) else w.brokerages a;
}

-- 20 when there is no record of 8 bytes.
unfoldable pub brokerage_value : Option Bytes → ℤ
brokerage_value none = pos 20
brokerage_value (some bytes) = if length bytes == 8 then i64_from_be bytes else pos 20

unfoldable pub get_brokerage : World → Bytes → ℤ
unfolding brokerage_value
get_brokerage w addr = brokerage_value (w.brokerages addr)

unfoldable pub feature_enabled : World → PropKey → Bool
unfolding get_prop_i64
feature_enabled w key = eqb_ℤ (get_prop_i64 w key) (pos 1)

abbrev pub token_id_base : ℤ
token_id_base = pos 1_000_000

unfoldable pub get_token_id_num : World → ℤ
unfolding get_prop_i64
get_token_id_num w =
    let v = get_prop_i64 w token_id_num in if eqb_ℤ v (pos 0) then token_id_base else v

-- The new id, and the world in which the counter holds it.
unfoldable pub allocate_token_id : World → ℤ × World
unfolding get_token_id_num put_prop_i64
allocate_token_id w =
    let next = add_i64 (get_token_id_num w) (pos 1) in (next, put_prop_i64 token_id_num next w)
