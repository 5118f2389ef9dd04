-- ===== src/Tests/Toy.antt =====
-- Concrete cryptography and encodings for the tests. A key is known by its first byte, which its
-- signatures carry.
use tron_rs.Prelude.{
  length, Bytes, ℤ, pos, ℕ, zero, suc, ◌+◌, ◌*◌, ◌%◌, refl, false, none, some, [], ◌∷◌, ◌++◌, arith,
}
use tron_rs.State.World.{MarketStore, Account, Witness, World}
use tron_rs.Crypto.{Crypto, IsSound, byte_at}
use tron_rs.Chain.{Transaction, Block, Codec, Env}

abbrev pub zeros : ℕ → Bytes
zeros zero = []
zeros (suc n) = 0 ∷ zeros n

abbrev pub total : Bytes → ℕ
total [] = 0
total (b ∷ bytes) = (b + 3 * total bytes) % 256

abbrev pub toy : Crypto
toy = record {
  sha256 = λ x. length x ∷ total x ∷ zeros 30;
  public_key = λ sk. byte_at sk 0 ∷ [];
  address_from_public_key = λ pk. 0x41 ∷ byte_at pk 0 ∷ zeros 19;
  sign_digest = λ sk digest. (byte_at sk 0 ∷ zeros 63, 0);
  recover = λ digest rs id. some (byte_at rs 0 ∷ []);
}

pub toy-IsSound : IsSound toy
toy-IsSound = record {
  sha256_len = λ x. refl;
  address_len = λ pk. refl;
  sign_len = λ sk d. refl;
  sign_id = λ sk d. omega arith;
  recover_sign = λ sk d. refl;
}

abbrev pub codec : Codec
codec = record {
  encode_raw = λ raw. raw.ref_block_bytes;
  encode_tx = λ tx. elim tx.raw_data [ none ↦ [] | some raw ↦ raw.ref_block_bytes ];
  encode_header = λ raw. raw.tx_trie_root ++ raw.witness_address;
}

abbrev pub env : Env
env = record { crypto = toy; codec = codec }

-- A transaction that the key [5] has signed, told apart by its reference bytes.
abbrev pub tx_of : Bytes → ℤ → Transaction
tx_of ref expiration = record {
  raw_data = some (record {
    ref_block_bytes = ref;
    ref_block_hash = [];
    expiration = expiration;
    contract = none ∷ [];
    timestamp = pos 0;
  });
  signature = (5 ∷ zeros 63 ++ 27 ∷ []) ∷ [];
}

abbrev pub tx₁ : Transaction
tx₁ = tx_of (1 ∷ []) (pos 900)

abbrev pub tx₂ : Transaction
tx₂ = tx_of (2 ∷ 2 ∷ []) (pos 500)

-- The witness with the key [7].
abbrev pub witness : Bytes
witness = 0x41 ∷ 7 ∷ zeros 19

-- A block without a header.
abbrev pub bare : Block
bare = record { transactions = []; block_header = none }

-- An order book with nothing in it.
abbrev pub no_market : MarketStore
no_market = record {
  orders = λ id. none;
  pair_prices = λ pair. none;
  price_orders = λ key. none;
  account_orders = λ owner. none;
  all_pairs = none;
}

abbrev pub blank_account : Account
blank_account = record {
  address = [];
  create_time = pos 0;
  balance = pos 0;
  allowance = pos 0;
  latest_withdraw_time = pos 0;
  asset_v2 = [];
  frozen_v2 = [];
  unfrozen_v2 = [];
  votes = [];
  account_type = pos 0;
  is_witness = false;
  frozen = [];
  tron_power = none;
  account_resource = none;
  delegated_frozen_v2_balance_for_bandwidth = pos 0;
  acquired_delegated_frozen_v2_balance_for_bandwidth = pos 0;
}

abbrev pub blank_witness : Witness
blank_witness = record { address = []; vote_count = pos 0; url = []; is_jobs = false }

abbrev pub blank_world : World
blank_world = record {
  blocks = λ n. none;
  block_index = λ id. none;
  transactions = λ id. none;
  accounts = λ a. none;
  brokerages = λ a. none;
  witnesses = λ a. none;
  exchanges = λ n. none;
  proposals = λ n. none;
  delegations = λ k. none;
  props = λ k. none;
  market = no_market;
}
