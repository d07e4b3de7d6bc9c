-- ===== src/TestUtils/Genesis/Initialized.antt =====
-- What an initialized builder does: accounts, funds and the genesis.
use kakarot_rpc.Prelude.{ℕ, ◌-◌, ◌%◌, ◌/◌, ◌^◌, String, none, some, unwrap_or, List, [], ◌∷◌}
use kakarot_rpc.Prelude.Bytes.{Bytes}
use kakarot_rpc.Prelude.Map.{Map, get, put, extend}
use kakarot_rpc.Prelude.Result.{Result, ok, ◌>>=◌, ok_or, unwrap}
use kakarot_rpc.Felt.{FieldElement}
use kakarot_rpc.EthProvider.Utils.{try_u128}
use kakarot_rpc.TestUtils.Genesis.{
  GenesisCrates, GenesisContract, KatanaGenesisBuilder, GenesisJson, Status, evm_address,
  cache_load, eoa_class_hash, proxy_class_hash, compute_starknet_address, storage_of,
}

module _ (F : FieldElement) (C : GenesisCrates F) where
  abbrev pub Initialized : Type 0
  Initialized = KatanaGenesisBuilder F C Status.initialized

  abbrev pub u128_max : F.Felt
  u128_max = F.from_uint (2 ^ 128 - 1)

  -- `[(key, low), (key + 1, high)]`
  abbrev pub cells : F.Felt → F.Felt → F.Felt → List (F.Felt × F.Felt)
  cells key low high = (key, low) ∷ (F.add key F.one_felt, high) ∷ []

  -- `storage.get_or_insert_with(HashMap::new).extend(…)`
  abbrev pub extend_storage : List (F.Felt × F.Felt) → GenesisContract F C → GenesisContract F C
  extend_storage es c = record c { storage = some (extend F.felt_eq es (unwrap_or c.storage [])) }

  abbrev pub eoa_cells : F.Felt → F.Felt → F.Felt → List (String × F.Felt)
  eoa_cells evm kakarot eoa_class =
      ("evm_address", evm) ∷ ("kakarot_address", kakarot) ∷ ("_implementation", eoa_class) ∷ []

  abbrev pub eoa_contract : F.Felt → Map F.Felt F.Felt → GenesisContract F C
  eoa_contract proxy_class eoa_storage = record {
    class = some proxy_class;
    balance = none;
    nonce = none;
    storage = some eoa_storage;
  }

  -- The allowance of the account to the Kakarot contract, and its entry in the storage of that one.
  abbrev pub account_linked :
      Initialized
      → Map F.Felt (GenesisContract F C)
      → F.Felt
      → F.Felt
      → F.Felt
      → F.Felt
      → GenesisContract F C
      → Initialized
  account_linked b contracts account kakarot key mapping contract = record b {
    fee_token_storage = extend F.felt_eq (cells key u128_max u128_max) b.fee_token_storage;
    contracts = put F.felt_eq kakarot (extend_storage ((mapping, account) ∷ []) contract) contracts;
  }

  unfoldable pub with_eoa : Bytes → Initialized → Result String Initialized
  with_eoa private_key b = do
    evm ← evm_address F C private_key
    kakarot ← cache_load F C b "kakarot_address"
    eoa_class ← eoa_class_hash F C b
    proxy_class ← proxy_class_hash F C b
    eoa_storage ← storage_of F C (eoa_cells evm kakarot eoa_class)
    account ← compute_starknet_address F C b evm
    let contracts = put F.felt_eq account (eoa_contract proxy_class eoa_storage) b.contracts
    key ← C.get_storage_var_address "ERC20_allowances" (account ∷ kakarot ∷ [])
    contract ← ok_or "Kakarot contract missing" (get F.felt_eq kakarot contracts)
    mapping ← C.get_storage_var_address "evm_to_starknet_address" (evm ∷ [])
    ok (account_linked b contracts account kakarot key mapping contract)

  abbrev pub account_funded :
      Initialized → F.Felt → GenesisContract F C → F.Felt → F.Felt → F.Felt → ℕ → Initialized
  account_funded b account eoa key low high amount = record b {
    fee_token_storage = extend F.felt_eq (cells key low high) b.fee_token_storage;
    contracts = put F.felt_eq account (record eoa { balance = some amount }) b.contracts;
  }

  unfoldable pub fund : Bytes → ℕ → Initialized → Result String Initialized
  fund pk amount b = do
    evm ← evm_address F C pk
    account ← compute_starknet_address F C b evm
    eoa ← ok_or "Missing EOA contract" (get F.felt_eq account b.contracts)
    key ← C.get_storage_var_address "ERC20_balances" (account ∷ [])
    low ← unwrap (try_u128 (amount % 2 ^ 128))
    high ← unwrap (try_u128 (amount / 2 ^ 128))
    ok (account_funded b account eoa key (F.from_uint low) (F.from_uint high) amount)

  abbrev pub genesis_of : Initialized → F.Felt → GenesisJson F C
  genesis_of b sequencer = record {
    parent_hash = F.zero_felt;
    state_root = F.zero_felt;
    number = 0;
    timestamp = 0;
    sequencer_address = sequencer;
    classes = b.classes;
    fee_token_name = "Ether";
    fee_token_symbol = "ETH";
    fee_token_decimals = 18;
    fee_token_storage = b.fee_token_storage;
    accounts = b.accounts;
    contracts = b.contracts;
  }

  unfoldable pub build : Initialized → Result String (GenesisJson F C)
  build b = do sequencer ← compute_starknet_address F C b b.coinbase; ok (genesis_of b sequencer)
