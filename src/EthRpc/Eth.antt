-- ===== src/EthRpc/Eth.antt =====
-- The server of the namespace `eth` (src/eth_rpc/servers/eth_rpc.rs), over any provider.
pub mod Requests
pub mod Replies
use kakarot_rpc.Prelude.{ℕ, String, Bool, false, Option, none, some, List, []}
use kakarot_rpc.Prelude.Bytes.{Bytes}
use kakarot_rpc.Prelude.Result.{Result, ok, err, ◌>>=◌, map_err}
use kakarot_rpc.EthProvider.Error.{Messages, ErrorObject, EthProviderError, error_object}
use kakarot_rpc.EthProvider.Database.{EthProviderResult}
use kakarot_rpc.EthProvider.Provider.Blocks.{Block}
use kakarot_rpc.EthProvider.Provider.Accounts.{SyncStatus}
use kakarot_rpc.EthProvider.Provider.Logs.{FilterChanges}
use kakarot_rpc.EthProvider.Provider.Fees.{FeeHistory}
use kakarot_rpc.EthProvider.Interface.{EthereumProvider}
use kakarot_rpc.EthRpc.Eth.Requests.{EthRequest}

-- `MAX_PRIORITY_FEE_PER_GAS` of `constant.rs`
abbrev max_priority_fee : ℕ
max_priority_fee = 0

-- What the methods return.
pub data Reply (P : EthereumProvider) : Type 0 where
  quantity : ℕ → Reply P
  maybe_quantity : Option ℕ → Reply P
  flag : Bool → Reply P
  bytes : Bytes → Reply P
  addresses : List Bytes → Reply P
  sync : SyncStatus → Reply P
  block : Option (Block P.Transaction) → Reply P
  transaction : Option P.Transaction → Reply P
  receipt : Option P.Receipt → Reply P
  receipts : Option (List P.Receipt) → Reply P
  log_changes : FilterChanges P.Log → Reply P
  history : FeeHistory P.Float → Reply P
  -- `Work::default()`
  default_work : Reply P

module _ (P : EthereumProvider) (m : Messages) where
  -- `Ok(self.eth_provider.….await?)`
  abbrev forward {ℓ} :
      {A : Type ℓ} → (A → Reply P) → EthProviderResult A → Result ErrorObject (Reply P)
  forward reply r = do a ← map_err (error_object m) r; ok (reply a)

  -- `Err(EthProviderError::MethodNotSupported(…).into())`
  abbrev not_supported : String → Result ErrorObject (Reply P)
  not_supported name = err (error_object m (EthProviderError.method_not_supported name))

module _ (P : EthereumProvider) (m : Messages) {Value : Type 0} where
  -- The reply to a request.
  unfoldable pub answer : P.State → EthRequest Value → Result ErrorObject (Reply P)
  unfolding error_object
  answer s EthRequest.block_number = forward P m Reply.quantity (P.block_number s)
  answer s EthRequest.syncing = forward P m Reply.sync (P.syncing s)
  answer s EthRequest.coinbase = not_supported P m "eth_coinbase"
  answer s EthRequest.accounts = ok (Reply.addresses [])
  answer s EthRequest.chain_id = forward P m Reply.maybe_quantity (P.chain_id s)
  answer s (EthRequest.block_by_hash a b) = forward P m Reply.block (P.block_by_hash s a b)
  answer s (EthRequest.block_by_number a b) = forward P m Reply.block (P.block_by_number s a b)
  answer s (EthRequest.block_transaction_count_by_hash a) =
      forward P m Reply.maybe_quantity (P.block_transaction_count_by_hash s a)
  answer s (EthRequest.block_transaction_count_by_number a) =
      forward P m Reply.maybe_quantity (P.block_transaction_count_by_number s a)
  answer s (EthRequest.block_uncles_count_by_block_hash _) = ok (Reply.quantity 0)
  answer s (EthRequest.block_uncles_count_by_block_number _) = ok (Reply.quantity 0)
  answer s (EthRequest.uncle_by_block_hash_and_index _ _) = ok (Reply.block none)
  answer s (EthRequest.uncle_by_block_number_and_index _ _) = ok (Reply.block none)
  answer s (EthRequest.transaction_by_hash a) =
      forward P m Reply.transaction (P.transaction_by_hash s a)
  answer s (EthRequest.transaction_by_block_hash_and_index a b) =
      forward P m Reply.transaction (P.transaction_by_block_hash_and_index s a b)
  answer s (EthRequest.transaction_by_block_number_and_index a b) =
      forward P m Reply.transaction (P.transaction_by_block_number_and_index s a b)
  answer s (EthRequest.transaction_receipt a) =
      forward P m Reply.receipt (P.transaction_receipt s a)
  answer s (EthRequest.balance a b) = forward P m Reply.quantity (P.balance s a b)
  answer s (EthRequest.storage_at a b c) = forward P m Reply.bytes (P.storage_at s a b c)
  answer s (EthRequest.transaction_count a b) =
      forward P m Reply.quantity (P.transaction_count s a b)
  answer s (EthRequest.get_code a b) = forward P m Reply.bytes (P.get_code s a b)
  answer s (EthRequest.get_logs a) = forward P m Reply.log_changes (P.get_logs s a)
  answer s (EthRequest.call a b) = forward P m Reply.bytes (P.call s a b)
  answer s (EthRequest.create_access_list _ _) = not_supported P m "eth_createAccessList"
  answer s (EthRequest.estimate_gas a b) = forward P m Reply.quantity (P.estimate_gas s a b)
  answer s EthRequest.gas_price = forward P m Reply.quantity (P.gas_price s)
  answer s (EthRequest.fee_history a b) = forward P m Reply.history (P.fee_history s a b)
  answer s EthRequest.max_priority_fee_per_gas = ok (Reply.quantity max_priority_fee)
  answer s EthRequest.blob_base_fee = not_supported P m "eth_blobBaseFee"
  answer s EthRequest.mining = ok (Reply.flag false)
  answer s EthRequest.hashrate = ok (Reply.quantity 0)
  answer s EthRequest.get_work = ok (Reply.default_work)
  answer s (EthRequest.submit_hashrate _ _) = not_supported P m "eth_submitHashrate"
  answer s (EthRequest.submit_work _ _ _) = not_supported P m "eth_submitWork"
  answer s (EthRequest.send_transaction _) = not_supported P m "eth_sendTransaction"
  answer s (EthRequest.send_raw_transaction a) =
      forward P m Reply.bytes (P.send_raw_transaction s a).0
  answer s (EthRequest.sign _ _) = not_supported P m "eth_sign"
  answer s (EthRequest.sign_transaction _) = not_supported P m "eth_signTransaction"
  answer s (EthRequest.sign_typed_data _ _) = not_supported P m "eth_signTypedData"
  answer s (EthRequest.get_proof _ _ _) = not_supported P m "eth_getProof"
  answer s (EthRequest.new_filter _) = not_supported P m "eth_newFilter"
  answer s EthRequest.new_block_filter = not_supported P m "eth_newBlockFilter"
  answer s EthRequest.new_pending_transaction_filter =
      not_supported P m "eth_newPendingTransactionFilter"
  answer s (EthRequest.uninstall_filter _) = not_supported P m "eth_uninstallFilter"
  answer s (EthRequest.get_filter_changes _) = not_supported P m "eth_getFilterChanges"
  answer s (EthRequest.get_filter_logs _) = not_supported P m "eth_getFilterLogs"
  answer s (EthRequest.block_receipts a) = forward P m Reply.receipts (P.block_receipts s a)

  -- The state after a request: only a raw transaction goes to the node.
  unfoldable pub after : P.State → EthRequest Value → P.State
  after s (EthRequest.send_raw_transaction a) = (P.send_raw_transaction s a).1
  after s _ = s

  unfoldable pub handle : P.State → EthRequest Value → Result ErrorObject (Reply P) × P.State
  unfolding answer after
  handle s request = (answer s request, after s request)
