-- ===== src/EthProvider/Starknet.antt =====
-- The Starknet side (src/eth_provider/starknet): the node, the Kakarot contracts and the Ethereum
-- transactions as parameters, and the transactions that Kakarot makes of Ethereum ones.
pub mod Invoke
use kakarot_rpc.Prelude.{
  ℕ, ◌+◌, Bool, true, false, String, Option, none, some, List, [], ◌∷◌, ◌++◌, map, length,
  if◌then◌else◌,
}
use kakarot_rpc.Prelude.Bytes.{Bytes}
use kakarot_rpc.Prelude.Result.{Result, ok, err, ◌>>=◌}
use kakarot_rpc.Felt.{FieldElement}
use kakarot_rpc.Models.Felt.{felt_from_address}
use kakarot_rpc.Models.Block.{StarknetBlockId}
use kakarot_rpc.EthProvider.Error.{EthProviderError, ProviderError, CallError}
use kakarot_rpc.EthProvider.Utils.{LowerHex, split_u256}
use kakarot_rpc.EthProvider.Database.{EthProviderResult}

-- `starknet::core::types::SyncStatusType`
pub data SyncStatusType : Type 0 where
  not_syncing : SyncStatusType
  -- the starting, the current and the highest block
  syncing : ℕ → ℕ → ℕ → SyncStatusType

module _ (F : FieldElement) where
  pub record Uint256 : Type 0 where
    pub low : F.Felt
    pub high : F.Felt

  -- `BroadcastedInvokeTransactionV1`
  pub record InvokeTransaction : Type 0 where
    pub max_fee : F.Felt
    pub signature : List F.Felt
    pub nonce : F.Felt
    pub sender_address : F.Felt
    pub calldata : List F.Felt
    pub is_query : Bool

  -- `kakarot_core::core::Option`
  pub record CairoOption : Type 0 where
    pub is_some : F.Felt
    pub value : F.Felt

  -- the arguments of `eth_call`, in their order
  pub record EthCall : Type 0 where
    pub nonce : F.Felt
    pub origin : F.Felt
    pub to : CairoOption
    pub gas_limit : F.Felt
    pub gas_price : F.Felt
    pub value : Uint256
    pub data_len : F.Felt
    pub calldata : List F.Felt
    pub access_list_len : F.Felt
    pub access_list : List F.Felt

  pub record CallOutput : Type 0 where
    pub return_data : List F.Felt
    pub success : F.Felt
    pub gas_used : F.Felt

  -- `starknet::accounts::Call`
  pub record Call : Type 0 where
    pub to : F.Felt
    pub selector : F.Felt
    pub calldata : List F.Felt

  -- A node in some state, and the contract readers that `abigen_legacy` generates.
  pub record StarknetProvider : Type 1 where
    pub State : Type 0
    pub block_number : State → Result ProviderError ℕ
    pub syncing : State → Result ProviderError SyncStatusType
    pub chain_id : State → Result ProviderError F.Felt
    pub get_nonce : State → StarknetBlockId F → F.Felt → Result ProviderError F.Felt
    pub add_invoke_transaction : State → InvokeTransaction → Result ProviderError F.Felt × State
    -- `balanceOf` of a token, at an address
    pub balance_of : State → F.Felt → F.Felt → StarknetBlockId F → Result CallError Uint256
    -- the readers of an account, at its address
    pub get_implementation : State → F.Felt → StarknetBlockId F → Result CallError F.Felt
    pub storage : State → F.Felt → F.Felt → StarknetBlockId F → Result CallError Uint256
    pub contract_nonce : State → F.Felt → StarknetBlockId F → Result CallError F.Felt
    pub bytecode : State → F.Felt → StarknetBlockId F → Result CallError (List F.Felt)
    -- the Kakarot contract, at its address; `get_base_fee` is read at the reader's own block
    pub eth_call : State → F.Felt → EthCall → StarknetBlockId F → Result CallError CallOutput
    pub get_base_fee : State → F.Felt → Result CallError F.Felt
    -- the deploy wallet of `hive`: `Execution::new(…).nonce(…).max_fee(…).prepared()?`
    -- `.get_invoke_request(false)`
    pub wallet_request : State → List Call → F.Felt → F.Felt → Result String InvokeTransaction

  -- The addresses, class hashes and selectors of a deployment, and what computes with them.
  pub record Deployment : Type 0 where
    pub kakarot_address : F.Felt
    pub proxy_account_class_hash : F.Felt
    pub externally_owned_account_class_hash : F.Felt
    pub contract_account_class_hash : F.Felt
    pub eth_send_transaction : F.Felt
    pub deploy_selector : F.Felt
    pub starknet_native_token : F.Felt
    -- salt, class hash, constructor calldata, deployer
    pub get_contract_address : F.Felt → F.Felt → List F.Felt → F.Felt → F.Felt
    -- fails if the name is not ASCII
    pub get_storage_var_address : String → List F.Felt → Option F.Felt

-- `TransactionSigned` and the other types of `reth`
pub record EthPrimitives : Type 1 where
  pub TransactionSigned : Type 0
  pub decode : Bytes → Result String TransactionSigned
  pub recover_signer : TransactionSigned → Option Bytes
  pub nonce : TransactionSigned → ℕ
  pub signature_r : TransactionSigned → ℕ
  pub signature_s : TransactionSigned → ℕ
  pub odd_y_parity : TransactionSigned → Bool
  -- `signature().v(Some(chain_id))`
  pub signature_v : TransactionSigned → ℕ → ℕ
  pub is_legacy : TransactionSigned → Bool
  pub encode_without_signature : TransactionSigned → Bytes
  pub max_fee_per_gas : TransactionSigned → ℕ
  pub effective_gas_price : TransactionSigned → ℕ → ℕ
  pub gas_limit : TransactionSigned → ℕ
  pub transaction_hash : TransactionSigned → Bytes
  -- `TransactionInput::into_input`, of the fields `input` and `data`
  pub into_input : Option Bytes → Option Bytes → Option Bytes
  pub empty_root_hash : Bytes
  pub hex_u64 : LowerHex ℕ
  pub hex_b256 : LowerHex Bytes
  pub hex_address : LowerHex Bytes
  -- the text of `FromUintError`
  pub from_uint_message : String
  -- floating-point numbers
  pub Float : Type 0
  pub as_f64 : ℕ → Float
  pub div_f64 : Float → Float → Float

module _ (F : FieldElement) (K : Deployment F) where
  -- The address of the account contract of an Ethereum address.
  unfoldable pub starknet_address : Bytes → EthProviderResult F.Felt
  starknet_address address = do
    salt ← felt_from_address F address
    ok (K.get_contract_address salt K.proxy_account_class_hash [] K.kakarot_address)

module _ (F : FieldElement) (K : Deployment F) (X : EthPrimitives) where
  abbrev bool_as_u64 : Bool → ℕ
  bool_as_u64 false = 0
  bool_as_u64 true = 1

  -- The last element of the signature: `v` of a legacy transaction, else the parity.
  abbrev signature_end : X.TransactionSigned → ℕ → F.Felt
  signature_end transaction chain_id =
      if X.is_legacy transaction
      then F.from_uint (X.signature_v transaction chain_id)
      else F.from_uint (bool_as_u64 (X.odd_y_parity transaction))

  abbrev execute_calldata : Bytes → List F.Felt
  execute_calldata signed_data =
      (F.one_felt
        ∷ K.kakarot_address
        ∷ K.eth_send_transaction
        ∷ F.zero_felt
        ∷ F.from_uint (length signed_data)
        ∷ F.from_uint (length signed_data)
        ∷ [])
      ++ map F.from_uint signed_data

  unfoldable pub to_starknet_transaction :
      X.TransactionSigned → ℕ → Bytes → ℕ → EthProviderResult (InvokeTransaction F)
  unfolding starknet_address split_u256
  to_starknet_transaction transaction chain_id signer max_fee = do
    address ← starknet_address F K signer
    r ← split_u256 F.from_uint (X.signature_r transaction)
    s ← split_u256 F.from_uint (X.signature_s transaction)
    ok (record {
      max_fee = F.from_uint max_fee;
      signature = (r.0 ∷ r.1 ∷ s.0 ∷ s.1 ∷ []) ++ (signature_end transaction chain_id ∷ []);
      nonce = F.from_uint (X.nonce transaction);
      sender_address = address;
      calldata = execute_calldata (X.encode_without_signature transaction);
      is_query = false;
    })
