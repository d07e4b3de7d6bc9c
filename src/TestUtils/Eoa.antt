-- ===== src/TestUtils/Eoa.antt =====
-- Externally owned accounts that sign and send transactions (src/test_utils/eoa.rs).
pub mod Contracts
pub mod Sent
pub mod Transferred
pub mod Found
pub mod Deployed
use kakarot_rpc.Prelude.{
  ℕ, zero, suc, String, Bool, true, false, ◌&&◌, Option, none, some, unwrap_or, List, [], ◌∷◌, any,
  if◌then◌else◌,
}
use kakarot_rpc.Prelude.Bytes.{Bytes}
use kakarot_rpc.Prelude.Result.{Result, ok, err, panic, ◌>>=◌, map_err, ok_or, unwrap}
use kakarot_rpc.Felt.{FieldElement}
use kakarot_rpc.Models.Errors.{ConversionError, from_uint_error}
use kakarot_rpc.Models.Felt.{felt_from_b256}
use kakarot_rpc.EthProvider.Error.{EthProviderError, ProviderError}
use kakarot_rpc.EthProvider.Database.{EthProviderResult}
use kakarot_rpc.EthProvider.Starknet.{starknet_address}
use kakarot_rpc.EthProvider.Provider.{Environment, try_u64}
use kakarot_rpc.EthProvider.Provider.Accounts.{transaction_count, chain_id}
use kakarot_rpc.EthProvider.Provider.Send.{Features, SendState, send_raw_transaction}
use kakarot_rpc.TestUtils.TxWaiter.{ExecutionResult, WatchError, watch_tx}
use kakarot_rpc.TestUtils.EvmContract.{
  EyreError, TransactionKind, TxEip1559, tx_gas_limit, ContractCrates, CompactContractBytecode,
  KakarotEvmContract, load_contract_bytecode, prepare_create_transaction, prepare_call_transaction,
}

module _ (E : Environment) where
  open E use {field as F, node as N, deployment as K, primitives as X}

  -- What signs: the wallet, `reth` and `Address::create`.
  pub record Signing : Type 1 where
    pub Signature : Type 0
    -- `LocalWallet::from_bytes(…)?.address()`
    pub wallet_address : Bytes → Result String Bytes
    pub signature_hash : TxEip1559 → Bytes
    pub sign_message : Bytes → Bytes → Result String Signature
    pub from_transaction_and_signature : TxEip1559 → Signature → X.TransactionSigned
    pub encode_enveloped : X.TransactionSigned → Bytes
    pub created_address : Bytes → ℕ → Bytes

  module _ (S : Signing) where
    unfoldable pub evm_address : Bytes → Result EyreError Bytes
    evm_address private_key = map_err EyreError.message (S.wallet_address private_key)

    unfoldable pub eoa_starknet_address : Bytes → Result EyreError F.Felt
    unfolding evm_address
    eoa_starknet_address private_key = do
      address ← evm_address private_key
      map_err EyreError.eth_provider (starknet_address F K address)

    unfoldable pub nonce : N.State → Bytes → Result EyreError ℕ
    unfolding evm_address
    nonce s private_key = do
      address ← evm_address private_key
      map_err EyreError.eth_provider (transaction_count E s address none)

    unfoldable pub sign_transaction : Bytes → TxEip1559 → Result EyreError X.TransactionSigned
    sign_transaction private_key tx = do
      signature ← map_err EyreError.message (S.sign_message private_key (S.signature_hash tx))
      ok (S.from_transaction_and_signature tx signature)

    -- `nonce.try_into()?`
    abbrev pub nonce_u64 : N.State → Bytes → Result EyreError ℕ
    nonce_u64 s private_key = do
      count ← nonce s private_key
      map_err EyreError.conversion (try_u64 (from_uint_error X.from_uint_message) count)

    -- `chain_id().await?.unwrap_or_default()`; a `U64` fits in a `u64`.
    abbrev pub chain_id_u64 : N.State → Result EyreError ℕ
    chain_id_u64 s = do id ← map_err EyreError.eth_provider (chain_id E s); ok (unwrap_or id 0)

    module _ (features : Features) where
      abbrev pub eyre_reply :
          EthProviderResult Bytes × SendState E → Result EyreError Bytes × SendState E
      eyre_reply (r, s) = (map_err EyreError.eth_provider r, s)

      unfoldable pub send_transaction :
          SendState E → X.TransactionSigned → Result EyreError Bytes × SendState E
      send_transaction s tx = eyre_reply (send_raw_transaction E features s (S.encode_enveloped tx))

      abbrev pub send_signed :
          SendState E → Result EyreError X.TransactionSigned → Result EyreError Bytes × SendState E
      send_signed s (ok tx) = send_transaction s tx
      send_signed s (err e) = (err e, s)
      send_signed s panic = (panic, s)

      -- The transaction of `transfer`, signed.
      unfoldable pub transfer_signed :
          N.State → Bytes → Bytes → ℕ → Result EyreError X.TransactionSigned
      transfer_signed s private_key to value = do
        count ← nonce_u64 s private_key
        id ← chain_id_u64 s
        sign_transaction private_key (record {
          chain_id = id;
          nonce = count;
          max_priority_fee_per_gas = 0;
          max_fee_per_gas = 0;
          gas_limit = tx_gas_limit;
          to = TransactionKind.call to;
          value = value;
          input = [];
        })

      unfoldable pub transfer :
          SendState E → Bytes → Bytes → ℕ → Result EyreError Bytes × SendState E
      transfer s private_key to value = send_signed s (transfer_signed s.node private_key to value)
