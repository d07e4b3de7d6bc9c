-- ===== src/EthProvider/Error.antt =====
-- The errors of the provider and the JSON-RPC errors that they become
-- (src/eth_provider/error.rs). The errors of other crates are a message, or the variants that the
-- code tells apart.
pub mod Codes
use kakarot_rpc.Prelude.{String, ◌<>◌}
use kakarot_rpc.Prelude.Int.{ℤ, pos, negsuc}
use kakarot_rpc.Models.Errors.{ConversionError}

-- `starknet::core::types::StarknetError`
pub data StarknetError : Type 0 where
  contract_not_found transaction_hash_not_found : StarknetError
  -- `ContractError(ContractErrorData { revert_error })`
  contract_error : String → StarknetError
  other : String → StarknetError

-- `starknet::providers::ProviderError`
pub data ProviderError : Type 0 where
  starknet_error : StarknetError → ProviderError
  other : String → ProviderError

-- `cainome::cairo_serde::Error`, of a call of a contract
pub data CallError : Type 0 where
  provider : ProviderError → CallError
  other : String → CallError

pub data EthRpcErrorCode : Type 0 where
  unknown execution_error parse_error invalid_request method_not_found invalid_params internal_error
        invalid_input resource_not_found resource_unavailable transaction_rejected
        method_not_supported request_limit_exceeded json_rpc_version_unsupported :
      EthRpcErrorCode

-- `code as i32`. A variant with no value of its own counts on from the one above it, from 0.
unfoldable pub as_i32 : EthRpcErrorCode → ℤ
as_i32 EthRpcErrorCode.unknown = pos 0
as_i32 EthRpcErrorCode.execution_error = pos 3
as_i32 EthRpcErrorCode.parse_error = negsuc 32699
as_i32 EthRpcErrorCode.invalid_request = negsuc 32599
as_i32 EthRpcErrorCode.method_not_found = negsuc 32600
as_i32 EthRpcErrorCode.invalid_params = negsuc 32601
as_i32 EthRpcErrorCode.internal_error = negsuc 32602
as_i32 EthRpcErrorCode.invalid_input = negsuc 31999
as_i32 EthRpcErrorCode.resource_not_found = negsuc 32000
as_i32 EthRpcErrorCode.resource_unavailable = negsuc 32001
as_i32 EthRpcErrorCode.transaction_rejected = negsuc 32002
as_i32 EthRpcErrorCode.method_not_supported = negsuc 32003
as_i32 EthRpcErrorCode.request_limit_exceeded = negsuc 32004
as_i32 EthRpcErrorCode.json_rpc_version_unsupported = negsuc 32005

pub data EthProviderError : Type 0 where
  mongo_db_error : String → EthProviderError
  starknet_provider_error : ProviderError → EthProviderError
  evm_execution_error : String → EthProviderError
  contract_call_error : CallError → EthProviderError
  conversion_error : ConversionError → EthProviderError
  value_not_found : String → EthProviderError
  method_not_supported : String → EthProviderError
  other : String → EthProviderError

-- The texts of the errors of other crates.
pub record Messages : Type 0 where
  pub provider_message : ProviderError → String
  pub call_message : CallError → String
  -- of `FromByteArrayError`
  pub byte_array_message : String

pub record ErrorObject : Type 0 where
  pub code : ℤ
  pub message : String

unfoldable pub rpc_err : EthRpcErrorCode → String → ErrorObject
unfolding as_i32
rpc_err code message = record { code = as_i32 code; message = message }

module _ (m : Messages) where
  -- The text of a conversion error, as `thiserror` derives it.
  unfoldable pub conversion_message : ConversionError → String
  conversion_message ConversionError.felt252_wrapper_conversion_error = m.byte_array_message
  conversion_message ConversionError.to_ethereum_address_error =
      "failed to convert Felt252Wrapper to Ethereum address: the value exceeds the maximum size of an Ethereum address"
  conversion_message (ConversionError.to_starknet_transaction_error s) =
      "Failed to convert Ethereum transaction to Starknet transaction: " <> s
  conversion_message (ConversionError.value_out_of_range s) = "value out of range: " <> s
  conversion_message (ConversionError.uint_conversion_error s) = "Uint conversion error: " <> s
  conversion_message (ConversionError.other s) = "failed to convert value: " <> s

  -- `to_string`
  unfoldable pub error_message : EthProviderError → String
  unfolding conversion_message
  error_message (EthProviderError.mongo_db_error s) = s
  error_message (EthProviderError.starknet_provider_error e) = m.provider_message e
  error_message (EthProviderError.evm_execution_error s) = "EVM execution error: " <> s
  error_message (EthProviderError.contract_call_error e) = m.call_message e
  error_message (EthProviderError.conversion_error e) = conversion_message e
  error_message (EthProviderError.value_not_found s) = s <> " not found."
  error_message (EthProviderError.method_not_supported s) = "Method not supported: " <> s
  error_message (EthProviderError.other s) = s

  -- `From<EthProviderError> for ErrorObject`
  unfoldable pub error_object : EthProviderError → ErrorObject
  unfolding rpc_err error_message
  error_object (EthProviderError.mongo_db_error s) = rpc_err EthRpcErrorCode.resource_not_found s
  error_object (EthProviderError.starknet_provider_error e) =
      rpc_err EthRpcErrorCode.internal_error (m.provider_message e)
  error_object (EthProviderError.evm_execution_error s) =
      rpc_err EthRpcErrorCode.execution_error
        (error_message (EthProviderError.evm_execution_error s))
  error_object (EthProviderError.contract_call_error e) =
      rpc_err EthRpcErrorCode.execution_error (m.call_message e)
  error_object (EthProviderError.conversion_error e) =
      rpc_err EthRpcErrorCode.parse_error (conversion_message e)
  error_object (EthProviderError.value_not_found s) =
      rpc_err EthRpcErrorCode.resource_not_found
        (error_message (EthProviderError.value_not_found s))
  error_object (EthProviderError.method_not_supported s) =
      rpc_err EthRpcErrorCode.method_not_supported
        (error_message (EthProviderError.method_not_supported s))
  error_object (EthProviderError.other s) = rpc_err EthRpcErrorCode.internal_error s
