-- ===== src/TestUtils/Hive.antt =====
-- `HiveGenesisConfig` (src/test_utils/hive/mod.rs): the genesis of a Hive test as one of Katana.
pub mod Walked
pub mod Contracts
pub mod Deployed
pub mod Storage
pub mod Outcome
pub mod Total
use kakarot_rpc.Prelude.{
  ℕ, ◌+◌, String, Option, none, some, unwrap_or, List, [], ◌∷◌, ◌++◌, if◌then◌else◌,
}
use kakarot_rpc.Prelude.Bytes.{Bytes, to_be_bytes, from_be_bytes}
use kakarot_rpc.Prelude.Int.{ℤ}
use kakarot_rpc.Prelude.Map.{Map, get, put, extend}
use kakarot_rpc.Prelude.Result.{Result, ok, err, panic, ◌>>=◌, ok_or}
use kakarot_rpc.Felt.{FieldElement}
use kakarot_rpc.TestUtils.Genesis.{
  GenesisCrates, GenesisContract, KatanaGenesisBuilder, GenesisJson, Status, with_kakarot,
  cache_load, proxy_class_hash, eoa_class_hash, contract_account_class_hash,
  compute_starknet_address,
}
use kakarot_rpc.TestUtils.Genesis.Initialized.{Initialized, extend_storage, u128_max, build}

-- `Config`; the blocks are `i128`.
pub record HiveChainConfig : Type 0 where
  pub chain_id : ℤ
  pub homestead_block : ℤ
  pub eip150_block : ℤ
  pub eip150_hash : Option Bytes
  pub eip155_block : ℤ
  pub eip158_block : ℤ

pub record AccountInfo : Type 0 where
  pub balance : ℕ
  pub code : Option Bytes
  pub storage : Option (Map ℕ ℕ)

-- A hash map is the list of its entries in the order in which it is walked.
pub record HiveGenesisConfig : Type 0 where
  pub config : HiveChainConfig
  pub coinbase : Bytes
  pub difficulty : ℕ
  pub extra_data : Bytes
  pub gas_limit : ℕ
  pub nonce : ℕ
  pub timestamp : ℕ
  pub alloc : Map Bytes AccountInfo

-- `AccountType` of `ef_testing`; `other` is any variant that the code does not name.
pub data AccountType : Type 0 where
  contract eoa other : AccountType

module _ (F : FieldElement) where
  -- `KakarotAccount` of `ef_testing`
  pub record KakarotAccount : Type 0 where
    pub account_type : AccountType
    pub storage : List (F.Felt × F.Felt)

  -- `KakarotAccount::new`: the address, the code, the nonce and the storage
  abbrev pub AccountMaker : Type 0
  AccountMaker = Bytes → Bytes → ℕ → List (ℕ × ℕ) → Result String KakarotAccount

module _ (F : FieldElement) (C : GenesisCrates F) (new_account : AccountMaker F) where
  -- What the walk over the accounts has gathered: more storage of Kakarot, that of the fee token,
  -- and the contracts.
  pub record Gathered : Type 0 where
    pub kakarot_storage : Map F.Felt F.Felt
    pub fee_token_storage : Map F.Felt F.Felt
    pub contracts : Map F.Felt (GenesisContract F C)

  abbrev pub nothing_gathered : Gathered
  nothing_gathered = record { kakarot_storage = []; fee_token_storage = []; contracts = [] }

  -- The values that are read from the builder before the walk.
  pub record ClassHashes : Type 0 where
    pub kakarot_address : F.Felt
    pub proxy : F.Felt
    pub eoa : F.Felt
    pub contract_account : F.Felt

  -- The implementation, and for a contract its owner.
  unfoldable pub implementation_cells :
      ClassHashes → AccountType → F.Felt → Result String (List (F.Felt × F.Felt))
  implementation_cells c AccountType.contract key = do
    owner ← C.get_storage_var_address "Ownable_owner" []
    ok ((key, c.contract_account) ∷ (owner, c.kakarot_address) ∷ [])
  implementation_cells c AccountType.eoa key = ok ((key, c.eoa) ∷ [])
  implementation_cells c AccountType.other key = panic

  -- The storage of the contract of an account.
  unfoldable pub account_cells :
      ClassHashes → Bytes → AccountInfo → Result String (List (F.Felt × F.Felt))
  account_cells c address info = do
    account ← new_account address (unwrap_or info.code []) 0 (unwrap_or info.storage [])
    key ← C.get_storage_var_address "_implementation" []
    implementation ← implementation_cells c account.account_type key
    kakarot ← C.get_storage_var_address "kakarot_address" []
    ok (account.storage ++ (implementation ++ (kakarot, c.kakarot_address) ∷ []))

  -- `U256::from_big_endian(&balance.to_be_bytes::<32>())`
  abbrev pub account_contract :
      ClassHashes → AccountInfo → List (F.Felt × F.Felt) → GenesisContract F C
  account_contract c info cells = record {
    class = some c.proxy;
    balance = some (from_be_bytes (to_be_bytes 32 info.balance));
    nonce = none;
    storage = some (extend F.felt_eq cells []);
  }

  abbrev pub gathered : Gathered → F.Felt → F.Felt → F.Felt → GenesisContract F C → Gathered
  gathered w mapping account key c = record {
    kakarot_storage = put F.felt_eq mapping account w.kakarot_storage;
    fee_token_storage =
        put F.felt_eq (F.add key F.one_felt) (u128_max F C)
          (put F.felt_eq key (u128_max F C) w.fee_token_storage);
    contracts = put F.felt_eq account c w.contracts;
  }

  -- The closure of the walk, for one account.
  unfoldable pub convert_account :
      Initialized F C → ClassHashes → Bytes × AccountInfo → Gathered → Result String Gathered
  convert_account b c entry w = do
    evm ← ok_or C.bytes_message (F.from_byte_slice_be entry.0)
    account ← compute_starknet_address F C b evm
    mapping ← C.get_storage_var_address "evm_to_starknet_address" (evm ∷ [])
    cells ← account_cells c entry.0 entry.1
    key ← C.get_storage_var_address "ERC20_allowances" (account ∷ c.kakarot_address ∷ [])
    ok (gathered w mapping account key (account_contract c entry.1 cells))

  -- `collect::<Result<HashMap<_, _>, _>>`: the first failure ends the walk.
  unfoldable pub convert_accounts :
      Initialized F C → ClassHashes → List (Bytes × AccountInfo) → Gathered → Result String Gathered
  convert_accounts b c [] w = ok w
  convert_accounts b c (entry ∷ entries) w = do
    w' ← convert_account b c entry w
    convert_accounts b c entries w'

  -- The genesis of the builder with what was gathered; `kakarot` is the contract that it has.
  abbrev pub with_gathered :
      GenesisJson F C → F.Felt → GenesisContract F C → Gathered → GenesisJson F C
  with_gathered g kakarot_address kakarot w = record g {
    fee_token_storage = extend F.felt_eq w.fee_token_storage g.fee_token_storage;
    contracts =
        extend F.felt_eq w.contracts (
          put F.felt_eq kakarot_address (extend_storage F C w.kakarot_storage kakarot) g.contracts);
  }

  abbrev pub class_hashes_of : Initialized F C → Result String ClassHashes
  class_hashes_of b = do
    kakarot ← cache_load F C b "kakarot_address"
    proxy ← proxy_class_hash F C b
    eoa_class ← eoa_class_hash F C b
    contract_class ← contract_account_class_hash F C b
    ok (record {
      kakarot_address = kakarot;
      proxy = proxy;
      eoa = eoa_class;
      contract_account = contract_class;
    })

  -- What follows `with_kakarot`.
  unfoldable pub genesis_with_accounts :
      List (Bytes × AccountInfo) → Initialized F C → Result String (GenesisJson F C)
  genesis_with_accounts alloc b = do
    c ← class_hashes_of b
    w ← convert_accounts b c alloc nothing_gathered
    g ← build F C b
    kakarot ← ok_or "Kakarot contract not found" (get F.felt_eq c.kakarot_address g.contracts)
    ok (with_gathered g c.kakarot_address kakarot w)

  unfoldable pub try_into_genesis_json :
      HiveGenesisConfig → KatanaGenesisBuilder F C Status.loaded → Result String (GenesisJson F C)
  try_into_genesis_json h b = do
    coinbase ← ok_or C.bytes_message (F.from_byte_slice_be h.coinbase)
    b' ← with_kakarot F C coinbase b
    genesis_with_accounts h.alloc b'
