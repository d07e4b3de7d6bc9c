-- ===== src/EthProvider/Error/Codes.antt =====
-- The JSON-RPC codes of errors (src/eth_provider/error.rs).
use kakarot_rpc.Prelude.{ℕ, ◌≡◌, refl, ap, sym, ◌∙◌, List, [], ◌∷◌, ◌==◌, if◌then◌else◌}
use kakarot_rpc.Prelude.Int.{ℤ, pos, negsuc}
use kakarot_rpc.EthProvider.Error.{
  EthRpcErrorCode, EthProviderError, Messages, as_i32, error_object, error_message,
}

-- The code whose negative value is `- (n + 1)`, by trying each.
abbrev find_code : ℕ → List (ℕ × EthRpcErrorCode) → EthRpcErrorCode
find_code n [] = EthRpcErrorCode.unknown
find_code n (c ∷ cs) = if n == c.0 then c.1 else find_code n cs

abbrev negative_codes : List (ℕ × EthRpcErrorCode)
negative_codes =
    (32699, EthRpcErrorCode.parse_error)
    ∷ (32599, EthRpcErrorCode.invalid_request)
    ∷ (32600, EthRpcErrorCode.method_not_found)
    ∷ (32601, EthRpcErrorCode.invalid_params)
    ∷ (32602, EthRpcErrorCode.internal_error)
    ∷ (31999, EthRpcErrorCode.invalid_input)
    ∷ (32000, EthRpcErrorCode.resource_not_found)
    ∷ (32001, EthRpcErrorCode.resource_unavailable)
    ∷ (32002, EthRpcErrorCode.transaction_rejected)
    ∷ (32003, EthRpcErrorCode.method_not_supported)
    ∷ (32004, EthRpcErrorCode.request_limit_exceeded)
    ∷ (32005, EthRpcErrorCode.json_rpc_version_unsupported)
    ∷ []

abbrev of_i32 : ℤ → EthRpcErrorCode
of_i32 (pos n) = if n == 0 then EthRpcErrorCode.unknown else EthRpcErrorCode.execution_error
of_i32 (negsuc n) = find_code n negative_codes

of_i32-as_i32 : (c : EthRpcErrorCode) → of_i32 (as_i32 c) ≡ c
unfolding as_i32
of_i32-as_i32 EthRpcErrorCode.unknown = refl
of_i32-as_i32 EthRpcErrorCode.execution_error = refl
of_i32-as_i32 EthRpcErrorCode.parse_error = refl
of_i32-as_i32 EthRpcErrorCode.invalid_request = refl
of_i32-as_i32 EthRpcErrorCode.method_not_found = refl
of_i32-as_i32 EthRpcErrorCode.invalid_params = refl
of_i32-as_i32 EthRpcErrorCode.internal_error = refl
of_i32-as_i32 EthRpcErrorCode.invalid_input = refl
of_i32-as_i32 EthRpcErrorCode.resource_not_found = refl
of_i32-as_i32 EthRpcErrorCode.resource_unavailable = refl
of_i32-as_i32 EthRpcErrorCode.transaction_rejected = refl
of_i32-as_i32 EthRpcErrorCode.method_not_supported = refl
of_i32-as_i32 EthRpcErrorCode.request_limit_exceeded = refl
of_i32-as_i32 EthRpcErrorCode.json_rpc_version_unsupported = refl

-- No two error codes have the same number on the wire.
pub as_i32_injective : (a b : EthRpcErrorCode) → as_i32 a ≡ as_i32 b → a ≡ b
as_i32_injective a b h = sym (of_i32-as_i32 a) ∙ ap of_i32 h ∙ of_i32-as_i32 b

-- The kinds of errors that a client sees.
abbrev pub code_of : EthProviderError → EthRpcErrorCode
code_of (EthProviderError.mongo_db_error _) = EthRpcErrorCode.resource_not_found
code_of (EthProviderError.starknet_provider_error _) = EthRpcErrorCode.internal_error
code_of (EthProviderError.evm_execution_error _) = EthRpcErrorCode.execution_error
code_of (EthProviderError.contract_call_error _) = EthRpcErrorCode.execution_error
code_of (EthProviderError.conversion_error _) = EthRpcErrorCode.parse_error
code_of (EthProviderError.value_not_found _) = EthRpcErrorCode.resource_not_found
code_of (EthProviderError.method_not_supported _) = EthRpcErrorCode.method_not_supported
code_of (EthProviderError.other _) = EthRpcErrorCode.internal_error

-- Every error of the provider becomes an error object with its own text as the message and the
-- number of its kind as the code.
pub error_object_lem :
    (m : Messages) (e : EthProviderError)
    → error_object m e ≡ record { code = as_i32 (code_of e); message = error_message m e }
unfolding error_object error_message
error_object_lem m (EthProviderError.mongo_db_error x) = refl
error_object_lem m (EthProviderError.starknet_provider_error x) = refl
error_object_lem m (EthProviderError.evm_execution_error x) = refl
error_object_lem m (EthProviderError.contract_call_error x) = refl
error_object_lem m (EthProviderError.conversion_error x) = refl
error_object_lem m (EthProviderError.value_not_found x) = refl
error_object_lem m (EthProviderError.method_not_supported x) = refl
error_object_lem m (EthProviderError.other x) = refl
