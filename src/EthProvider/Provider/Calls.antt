-- ===== src/EthProvider/Provider/Calls.antt =====
-- Calls of the EVM: `eth_call` and `eth_estimateGas`.
pub mod Sent
pub mod Answered
use kakarot_rpc.Prelude.{
  ℕ, ◌^◌, ◌-◌, Option, none, some, unwrap_or, List, [], ◌∷◌, map, filter_map, length, replicate,
  if◌then◌else◌,
}
use kakarot_rpc.Prelude.Bytes.{Bytes}
use kakarot_rpc.Prelude.Chars.{string_of_bytes}
use kakarot_rpc.Prelude.Result.{Result, ok, err, ◌>>=◌}
use kakarot_rpc.Models.Felt.{u128_from_felt, felt_from_u256, felt_from_address, felt_from_u64}
use kakarot_rpc.Models.Block.{BlockId}
use kakarot_rpc.EthProvider.Error.{EthProviderError}
use kakarot_rpc.EthProvider.Utils.{try_from_u8_iterator}
use kakarot_rpc.EthProvider.Database.{EthProviderResult}
use kakarot_rpc.EthProvider.Starknet.{CairoOption, EthCall, CallOutput}
use kakarot_rpc.EthProvider.Provider.{Environment, or_call_error, or_conversion_error}
use kakarot_rpc.EthProvider.Provider.Blocks.{State, to_starknet_block_id}
use kakarot_rpc.EthProvider.Provider.Accounts.{transaction_count}

-- `TransactionRequest`, the fields that the code reads; `input` and `data` are those of its
-- `TransactionInput`.
pub record TransactionRequest : Type 0 where
  pub from : Option Bytes
  pub to : Option Bytes
  pub gas_price : Option ℕ
  pub gas : Option ℕ
  pub value : Option ℕ
  pub input : Option Bytes
  pub input_data : Option Bytes
  pub nonce : Option ℕ

-- `constant.rs`
abbrev pub call_request_gas_limit : ℕ
call_request_gas_limit = 5_000_000

-- `Address::default()`
abbrev pub zero_address : Bytes
zero_address = replicate 20 0

module _ (E : Environment) where
  open E use {field as F, node as N, deployment as K, primitives as X}

  abbrev call_target : Option Bytes → EthProviderResult (CairoOption F)
  call_target none = ok (record { is_some = F.zero_felt; value = F.zero_felt })
  call_target (some to) = do
    felt ← felt_from_address F to
    ok (record { is_some = F.one_felt; value = felt })

  -- The nonce of a request, or the account's.
  abbrev call_nonce : State E → Option BlockId → Option ℕ → Option Bytes → EthProviderResult F.Felt
  call_nonce s block_id (some n) from = ok (felt_from_u64 F n)
  call_nonce s block_id none none = ok F.zero_felt
  call_nonce s block_id none (some address) = do
    n ← transaction_count E s address block_id
    or_conversion_error (felt_from_u256 F n)

  -- A call that did not succeed gives its reason as an error.
  abbrev pub call_result : CallOutput F → EthProviderResult (List F.Felt × ℕ)
  call_result output = elim (F.felt_eq output.success F.zero_felt) [
    | yes _ ↦ err (
        EthProviderError.evm_execution_error
          (string_of_bytes (filter_map (F.try_uint 8) output.return_data)))
    | no _ ↦ do
      gas_used ← or_conversion_error (u128_from_felt F output.gas_used)
      ok (output.return_data, gas_used)
  ]

  unfoldable pub call_helper :
      State E → TransactionRequest → Option BlockId → EthProviderResult (List F.Felt × ℕ)
  call_helper s request block_id = do
    id ← to_starknet_block_id E block_id
    to ← call_target request.to
    origin ← felt_from_address F (unwrap_or request.from zero_address)
    let calldata = map F.from_uint (unwrap_or (X.into_input request.input request.input_data) [])
    gas_limit ←
        or_conversion_error (felt_from_u256 F (unwrap_or request.gas call_request_gas_limit))
    gas_price ← or_conversion_error (felt_from_u256 F (unwrap_or request.gas_price 0))
    value ← or_conversion_error (felt_from_u256 F (unwrap_or request.value 0))
    nonce ← call_nonce s block_id request.nonce request.from
    output ← or_call_error (
        N.eth_call s K.kakarot_address
          (record {
            nonce = nonce;
            origin = origin;
            to = to;
            gas_limit = gas_limit;
            gas_price = gas_price;
            value = record { low = value; high = F.zero_felt };
            data_len = F.from_uint (length calldata);
            calldata = calldata;
            access_list_len = F.zero_felt;
            access_list = [];
          })
          id)
    call_result output

  unfoldable pub call : State E → TransactionRequest → Option BlockId → EthProviderResult Bytes
  call s request block_id = do
    output ← call_helper s request block_id
    ok (try_from_u8_iterator (F.try_uint 8) output.0)

  -- The gas limit of the request is replaced by the greatest `u64`.
  unfoldable pub estimate_gas : State E → TransactionRequest → Option BlockId → EthProviderResult ℕ
  estimate_gas s request block_id = do
    output ← call_helper s (record request { gas = some (2 ^ 64 - 1) }) block_id
    ok output.1
