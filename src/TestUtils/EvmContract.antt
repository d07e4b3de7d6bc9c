-- ===== src/TestUtils/EvmContract.antt =====
-- Compiled contracts and the transactions that they are used by (src/test_utils/evm_contract.rs).
use kakarot_rpc.Prelude.{ℕ, String, ◌<>◌, Option, none, some, unwrap_or, List, [], ◌∷◌, ◌++◌}
use kakarot_rpc.Prelude.Bytes.{Bytes}
use kakarot_rpc.Prelude.Result.{Result, ok, ◌>>=◌, map_err, ok_or}
use kakarot_rpc.Felt.{FieldElement}
use kakarot_rpc.Models.Errors.{ConversionError}
use kakarot_rpc.Models.Felt.{address_from_felt}
use kakarot_rpc.EthProvider.Error.{EthProviderError}

-- `eyre::Error`, by what it is made of.
pub data EyreError : Type 0 where
  message : String → EyreError
  conversion : ConversionError → EyreError
  eth_provider : EthProviderError → EyreError

pub data TransactionKind : Type 0 where
  create : TransactionKind
  call : Bytes → TransactionKind

-- `TxEip1559`; every access list of the code is empty.
pub record TxEip1559 : Type 0 where
  pub chain_id : ℕ
  pub nonce : ℕ
  pub max_priority_fee_per_gas : ℕ
  pub max_fee_per_gas : ℕ
  pub gas_limit : ℕ
  pub to : TransactionKind
  pub value : ℕ
  pub input : Bytes

-- `TX_GAS_LIMIT` of src/test_utils/eoa.rs
abbrev pub tx_gas_limit : ℕ
tx_gas_limit = 5_000_000

-- `ethers::abi`, the files and `serde_json`.
pub record ContractCrates : Type 1 where
  pub Abi : Type 0
  pub Token : Type 0
  -- `abi.constructor()` with its `encode_input`, of the code and the arguments
  pub constructor : Abi → Option (Bytes → List Token → Result String Bytes)
  -- `abi.function(name)?.encode_input(arguments)`
  pub call_data : Abi → String → List Token → Result String Bytes
  -- `find_project_root_path`, as the parts of a path, and `load_config().out`
  pub project_root : List String
  pub foundry_out : List String
  pub read_to_string : List String → Result String String

module _ (C : ContractCrates) where
  -- `CompactContractBytecode`; `bytecode` is what `object.as_bytes()` has of it.
  pub record CompactContractBytecode : Type 0 where
    pub abi : Option C.Abi
    pub bytecode : Option (Option Bytes)

  unfoldable pub load_contract_bytecode :
      (String → Result String CompactContractBytecode)
      → String
      → Result String CompactContractBytecode
  load_contract_bytecode from_str contract_name = do
    content ← C.read_to_string (
        C.project_root
        ++ (C.foundry_out ++ (contract_name <> ".sol") ∷ (contract_name <> ".json") ∷ []))
    from_str content

  abbrev deploy_data :
      Option (Bytes → List C.Token → Result String Bytes)
      → Bytes
      → List C.Token
      → Result String Bytes
  deploy_data none bytecode params = ok bytecode
  deploy_data (some encode_input) bytecode params = encode_input bytecode params

  unfoldable pub prepare_create_transaction :
      CompactContractBytecode → List C.Token → ℕ → ℕ → Result EyreError TxEip1559
  prepare_create_transaction contract_bytecode params nonce chain_id = do
    abi ← ok_or (EyreError.message "No ABI found") contract_bytecode.abi
    object ← ok_or (EyreError.message "No bytecode found") contract_bytecode.bytecode
    input ← map_err EyreError.message (deploy_data (C.constructor abi) (unwrap_or object []) params)
    ok (record {
      chain_id = chain_id;
      nonce = nonce;
      max_priority_fee_per_gas = 0;
      max_fee_per_gas = 0;
      gas_limit = tx_gas_limit;
      to = TransactionKind.create;
      value = 0;
      input = input;
    })

  module _ (F : FieldElement) where
    pub record KakarotEvmContract : Type 0 where
      pub bytecode : CompactContractBytecode
      pub starknet_address : F.Felt
      pub evm_address : F.Felt

    unfoldable pub prepare_call_transaction :
        KakarotEvmContract → String → List C.Token → ℕ → ℕ → ℕ → Result EyreError TxEip1559
    prepare_call_transaction contract selector params nonce value chain_id = do
      abi ← ok_or (EyreError.message "No ABI found") contract.bytecode.abi
      input ← map_err EyreError.message (C.call_data abi selector params)
      address ← map_err EyreError.conversion (address_from_felt F contract.evm_address)
      ok (record {
        chain_id = chain_id;
        nonce = nonce;
        max_priority_fee_per_gas = 0;
        max_fee_per_gas = 0;
        gas_limit = tx_gas_limit;
        to = TransactionKind.call address;
        value = value;
        input = input;
      })
