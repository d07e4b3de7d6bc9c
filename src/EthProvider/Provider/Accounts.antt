-- ===== src/EthProvider/Provider/Accounts.antt =====
-- Accounts: balances, storage, nonces and code, read from the contracts of the node.
pub mod Reads
pub mod Words
use kakarot_rpc.Prelude.{
  ℕ, ◌+◌, ◌*◌, ◌%◌, ◌^◌, String, Bool, true, false, ◌||◌, Option, none, some, List, [], ◌∷◌, dite,
  if◌then◌else◌,
}
use kakarot_rpc.Prelude.Bytes.{Bytes, to_be_bytes}
use kakarot_rpc.Prelude.Result.{Result, ok, err, panic, ◌>>=◌, unwrap}
use kakarot_rpc.Models.Felt.{u64_from_felt, u256_from_felt}
use kakarot_rpc.Models.Block.{BlockId, StarknetBlockId}
use kakarot_rpc.EthProvider.Error.{CallError, ProviderError}
use kakarot_rpc.EthProvider.Utils.{
  contract_not_found, entrypoint_not_found, split_u256, try_from_u8_iterator,
}
use kakarot_rpc.EthProvider.Database.{EthProviderResult}
use kakarot_rpc.EthProvider.Starknet.{SyncStatusType, Uint256, starknet_address}
use kakarot_rpc.EthProvider.Provider.{Environment, or_provider_error, or_call_error}
use kakarot_rpc.EthProvider.Provider.Blocks.{State, to_starknet_block_id}

-- `SyncStatus`; the starting, the current and the highest block
pub data SyncStatus : Type 0 where
  idle : SyncStatus
  info : ℕ → ℕ → ℕ → SyncStatus

abbrev sync_status : SyncStatusType → SyncStatus
sync_status SyncStatusType.not_syncing = SyncStatus.idle
sync_status (SyncStatusType.syncing starting current highest) =
    SyncStatus.info starting current highest

module _ (E : Environment) where
  open E use {field as F, node as N, deployment as K}

  unfoldable pub syncing : State E → EthProviderResult SyncStatus
  syncing s = do status ← or_provider_error (N.syncing s); ok (sync_status status)

  -- `Result::ok`
  unfoldable pub chain_id : State E → EthProviderResult (Option ℕ)
  chain_id s = do felt ← or_provider_error (N.chain_id s); ok (F.try_uint 64 felt)

  -- `low + (high << 128)` on `U256`: both operations wrap.
  abbrev u256_of : Uint256 F → ℕ
  u256_of w = (u256_from_felt F w.low + u256_from_felt F w.high * 2 ^ 128 % 2 ^ 256) % 2 ^ 256

  unfoldable pub balance : State E → Bytes → Option BlockId → EthProviderResult ℕ
  balance s address block_id = do
    id ← to_starknet_block_id E block_id
    account ← starknet_address F K address
    found ← or_call_error (N.balance_of s K.starknet_native_token account id)
    ok (u256_of found)

  -- The `expect` fails if "storage_" is not ASCII.
  unfoldable pub storage_at : State E → Bytes → ℕ → Option BlockId → EthProviderResult Bytes
  storage_at s address index block_id = do
    id ← to_starknet_block_id E block_id
    account ← starknet_address F K address
    keys ← split_u256 F.from_uint index
    key ← unwrap (K.get_storage_var_address "storage_" (keys.0 ∷ keys.1 ∷ []))
    found ← or_call_error (N.storage s account key id)
    ok (to_be_bytes 32 (u256_of found))

  -- The nonce, by the class of the account.
  abbrev nonce_of_class : State E → F.Felt → StarknetBlockId F → F.Felt → EthProviderResult F.Felt
  nonce_of_class s account id class_hash =
      elim (F.felt_eq class_hash K.externally_owned_account_class_hash) [
        | yes _ ↦ or_provider_error (N.get_nonce s id account)
        | no _ ↦ elim (F.felt_eq class_hash K.contract_account_class_hash) [
          | yes _ ↦ or_call_error (N.contract_nonce s account id)
          | no _ ↦ ok F.zero_felt
        ]
      ]

  unfoldable pub transaction_count : State E → Bytes → Option BlockId → EthProviderResult ℕ
  transaction_count s address block_id = do
    id ← to_starknet_block_id E block_id
    account ← starknet_address F K address
    let maybe_class_hash = N.get_implementation s account id
    if contract_not_found maybe_class_hash then ok 0 else do
      class_hash ← or_call_error maybe_class_hash
      nonce ← nonce_of_class s account id class_hash
      ok (u256_from_felt F nonce)

  unfoldable pub get_code : State E → Bytes → Option BlockId → EthProviderResult Bytes
  get_code s address block_id = do
    id ← to_starknet_block_id E block_id
    account ← starknet_address F K address
    let bytecode = N.bytecode s account id
    if contract_not_found bytecode || entrypoint_not_found bytecode
        then ok []
        else do code ← or_call_error bytecode; ok (try_from_u8_iterator (F.try_uint 8) code)

  unfoldable pub gas_price : State E → EthProviderResult ℕ
  gas_price s = do
    fee ← or_call_error (N.get_base_fee s K.kakarot_address)
    ok (u256_from_felt F fee)
