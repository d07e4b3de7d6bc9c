-- ===== src/TestUtils/Genesis.antt =====
-- `KatanaGenesisBuilder` (src/test_utils/katana/genesis.rs): the genesis of a test chain with the
-- Kakarot contracts. The status of a builder is an index of its type.
pub mod Initialized
pub mod Seed
pub mod Classes
pub mod Ready
pub mod Linked
pub mod Reached
pub mod Funds
use kakarot_rpc.Prelude.{
  ℕ, ◌+◌, ◌-◌, ◌%◌, ◌/◌, ◌^◌, String, ◌<>◌, Option, none, some, List, [], ◌∷◌, ◌++◌, map, replicate,
}
use kakarot_rpc.Prelude.Bytes.{Bytes}
use kakarot_rpc.Prelude.Map.{Map, get, put, extend, string_dec}
use kakarot_rpc.Prelude.Result.{Result, ok, err, panic, ◌>>=◌, ok_or, unwrap, try_collect}
use kakarot_rpc.Felt.{FieldElement}
use kakarot_rpc.EthProvider.Utils.{try_u128}

-- What the builder takes from other crates. Errors are their texts.
module _ (F : FieldElement) where
  pub record GenesisCrates : Type 1 where
    -- a parsed artifact, and a contract class
    pub Artifact : Type 0
    pub Account : Type 0
    -- `compute_class_hash`'s conversions: of a Cairo 1 class, with its hash in bytes, and of a
    -- legacy class
    pub as_contract_class : Artifact → Option Artifact
    pub compiled_class_hash : Artifact → Option Bytes
    pub parse_legacy : Artifact → Option Artifact
    pub legacy_class_hash : Artifact → Result String F.Felt
    pub bytes_message : String
    -- `DevAllocationsGenerator`, with an amount and a seed and the default balance
    pub dev_allocations : ℕ → Bytes → List (F.Felt × Account)
    pub default_fee_token_address : F.Felt
    pub get_udc_deployed_address : F.Felt → F.Felt → List F.Felt → F.Felt
    pub get_contract_address : F.Felt → F.Felt → List F.Felt → F.Felt → F.Felt
    pub get_storage_var_address : String → List F.Felt → Result String F.Felt
    -- `LocalWallet::from_bytes(…)?.address()`
    pub wallet_address : Bytes → Result String Bytes

pub data Status : Type 0 where
  uninitialized loaded initialized : Status

module _ (F : FieldElement) (C : GenesisCrates F) where
  -- `GenesisContractJson`
  pub record GenesisContract : Type 0 where
    pub class : Option F.Felt
    pub balance : Option ℕ
    pub nonce : Option F.Felt
    pub storage : Option (Map F.Felt F.Felt)

  -- `ContractAddress` wraps a field element, and is one here.
  pub record KatanaGenesisBuilder (T : Status) : Type 0 where
    pub coinbase : F.Felt
    pub classes : List C.Artifact
    pub class_hashes : Map String F.Felt
    pub contracts : Map F.Felt GenesisContract
    pub accounts : Map F.Felt C.Account
    pub fee_token_storage : Map F.Felt F.Felt
    pub cache : Map String F.Felt

  -- `GenesisJson`, without the gas prices and the fields that are always empty
  pub record GenesisJson : Type 0 where
    pub parent_hash : F.Felt
    pub state_root : F.Felt
    pub number : ℕ
    pub timestamp : ℕ
    pub sequencer_address : F.Felt
    pub classes : List C.Artifact
    pub fee_token_name : String
    pub fee_token_symbol : String
    pub fee_token_decimals : ℕ
    pub fee_token_storage : Map F.Felt F.Felt
    pub accounts : Map F.Felt C.Account
    pub contracts : Map F.Felt GenesisContract

  pub record KatanaManifest : Type 0 where
    pub declarations : Map String F.Felt
    pub deployments : Map String F.Felt

  unfoldable pub update_state :
      {T : Status} (U : Status) → KatanaGenesisBuilder T → KatanaGenesisBuilder U
  update_state U b = record {
    coinbase = b.coinbase;
    classes = b.classes;
    class_hashes = b.class_hashes;
    contracts = b.contracts;
    accounts = b.accounts;
    fee_token_storage = b.fee_token_storage;
    cache = b.cache;
  }

  unfoldable pub default_builder : KatanaGenesisBuilder Status.uninitialized
  default_builder = record {
    coinbase = F.zero_felt;
    classes = [];
    class_hashes = [];
    contracts = [];
    accounts = [];
    fee_token_storage = [];
    cache = [];
  }

  unfoldable pub class_hash :
      {T : Status} → KatanaGenesisBuilder T → String → String → Result String F.Felt
  class_hash b name message = ok_or message (get string_dec name b.class_hashes)

  module _ {T : Status} (b : KatanaGenesisBuilder T) where
    abbrev pub kakarot_class_hash : Result String F.Felt
    kakarot_class_hash = class_hash b "kakarot" "Missing Kakarot class hash"

    abbrev pub contract_account_class_hash : Result String F.Felt
    contract_account_class_hash =
        class_hash b "contract_account" "Missing contract account class hash"

    abbrev pub eoa_class_hash : Result String F.Felt
    eoa_class_hash = class_hash b "externally_owned_account" "Missing eoa account class hash"

    abbrev pub proxy_class_hash : Result String F.Felt
    proxy_class_hash = class_hash b "proxy" "Missing proxy class hash"

    abbrev pub precompiles_class_hash : Result String F.Felt
    precompiles_class_hash = class_hash b "precompiles" "Missing precompiles class hash"

    unfoldable pub cache_load : String → Result String F.Felt
    cache_load key = ok_or ("Cache miss for " <> key <> " address") (get string_dec key b.cache)

    unfoldable pub compute_starknet_address : F.Felt → Result String F.Felt
    compute_starknet_address evm_address = do
      kakarot ← cache_load "kakarot_address"
      proxy ← proxy_class_hash
      ok (C.get_contract_address evm_address proxy [] kakarot)

    unfoldable pub manifest : KatanaManifest
    manifest = record { declarations = b.class_hashes; deployments = b.cache }

  unfoldable pub evm_address : Bytes → Result String F.Felt
  evm_address pk = do
    address ← C.wallet_address pk
    ok_or C.bytes_message (F.from_byte_slice_be address)

  -- `storage_addr(name)?`, with the value stored there
  unfoldable pub storage_at_var : List F.Felt → String × F.Felt → Result String (F.Felt × F.Felt)
  storage_at_var keys e = do key ← C.get_storage_var_address e.0 keys; ok (key, e.1)

  unfoldable pub storage_of : List (String × F.Felt) → Result String (Map F.Felt F.Felt)
  unfolding storage_at_var
  storage_of es = do
    cells ← try_collect (map (storage_at_var []) es)
    ok (extend F.felt_eq cells [])

  abbrev block_gas_limit : F.Felt
  block_gas_limit = F.from_uint 20_000_000

  -- The storage of the Kakarot contract.
  abbrev pub kakarot_cells : F.Felt → F.Felt → F.Felt → F.Felt → F.Felt → List (String × F.Felt)
  kakarot_cells account_class eoa_class proxy_class precompiles_class coinbase_address =
      ("native_token_address", C.default_fee_token_address)
      ∷ ("contract_account_class_hash", account_class)
      ∷ ("externally_owned_account_class_hash", eoa_class)
      ∷ ("account_proxy_class_hash", proxy_class)
      ∷ ("precompiles_class_hash", precompiles_class)
      ∷ ("coinbase", coinbase_address)
      ∷ ("base_fee", F.zero_felt)
      ∷ ("prev_randao", F.zero_felt)
      ∷ ("block_gas_limit", block_gas_limit)
      ∷ []

  -- The contract goes into the cache and among the contracts.
  unfoldable pub kakarot_deployed :
      KatanaGenesisBuilder Status.loaded
      → F.Felt
      → F.Felt
      → Map F.Felt F.Felt
      → F.Felt
      → KatanaGenesisBuilder Status.initialized
  unfolding update_state
  kakarot_deployed b kakarot_address kakarot_class kakarot_storage coinbase_address =
      update_state Status.initialized (record b {
        cache = put string_dec "kakarot_address" kakarot_address b.cache;
        contracts =
            put F.felt_eq kakarot_address
              (record {
                class = some kakarot_class;
                balance = none;
                nonce = none;
                storage = some kakarot_storage;
              })
              b.contracts;
        coinbase = coinbase_address;
      })

  unfoldable pub with_kakarot :
      F.Felt
      → KatanaGenesisBuilder Status.loaded
      → Result String (KatanaGenesisBuilder Status.initialized)
  unfolding kakarot_deployed storage_of class_hash
  with_kakarot coinbase_address b = do
    kakarot_class ← kakarot_class_hash b
    account_class ← contract_account_class_hash b
    eoa_class ← eoa_class_hash b
    proxy_class ← proxy_class_hash b
    precompiles_class ← precompiles_class_hash b
    salt ← unwrap (F.from_bytes_be (replicate 32 0))
    let kakarot_address = C.get_udc_deployed_address salt kakarot_class (
        F.zero_felt ∷ C.default_fee_token_address ∷ account_class ∷ eoa_class ∷ proxy_class
        ∷ precompiles_class ∷ block_gas_limit ∷ [])
    kakarot_storage ←
        storage_of
          (kakarot_cells account_class eoa_class proxy_class precompiles_class coinbase_address)
    ok (kakarot_deployed b kakarot_address kakarot_class kakarot_storage coinbase_address)
