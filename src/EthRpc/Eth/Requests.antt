-- ===== src/EthRpc/Eth/Requests.antt =====
-- The methods of the namespace `eth` (src/eth_rpc/api/eth_api.rs): a request is a method with its
-- arguments.
use kakarot_rpc.Prelude.{ℕ, String, Bool, Option, List}
use kakarot_rpc.Prelude.Bytes.{Bytes}
use kakarot_rpc.Models.Block.{BlockNumberOrTag, BlockId}
use kakarot_rpc.EthProvider.Provider.Calls.{TransactionRequest}
use kakarot_rpc.EthProvider.Provider.Logs.{Filter}

-- `Value` is JSON. The reward percentiles of `fee_history` are not read by any server.
pub data EthRequest (Value : Type 0) : Type 0 where
  block_number : EthRequest Value
  syncing : EthRequest Value
  coinbase : EthRequest Value
  accounts : EthRequest Value
  chain_id : EthRequest Value
  block_by_hash : Bytes → Bool → EthRequest Value
  block_by_number : BlockNumberOrTag → Bool → EthRequest Value
  block_transaction_count_by_hash : Bytes → EthRequest Value
  block_transaction_count_by_number : BlockNumberOrTag → EthRequest Value
  block_uncles_count_by_block_hash : Bytes → EthRequest Value
  block_uncles_count_by_block_number : BlockNumberOrTag → EthRequest Value
  uncle_by_block_hash_and_index : Bytes → ℕ → EthRequest Value
  uncle_by_block_number_and_index : BlockNumberOrTag → ℕ → EthRequest Value
  transaction_by_hash : Bytes → EthRequest Value
  transaction_by_block_hash_and_index : Bytes → ℕ → EthRequest Value
  transaction_by_block_number_and_index : BlockNumberOrTag → ℕ → EthRequest Value
  transaction_receipt : Bytes → EthRequest Value
  balance : Bytes → Option BlockId → EthRequest Value
  storage_at : Bytes → ℕ → Option BlockId → EthRequest Value
  transaction_count : Bytes → Option BlockId → EthRequest Value
  get_code : Bytes → Option BlockId → EthRequest Value
  get_logs : Filter → EthRequest Value
  call : TransactionRequest → Option BlockId → EthRequest Value
  create_access_list : TransactionRequest → Option BlockId → EthRequest Value
  estimate_gas : TransactionRequest → Option BlockId → EthRequest Value
  gas_price : EthRequest Value
  fee_history : ℕ → BlockNumberOrTag → EthRequest Value
  max_priority_fee_per_gas : EthRequest Value
  blob_base_fee : EthRequest Value
  mining : EthRequest Value
  hashrate : EthRequest Value
  get_work : EthRequest Value
  submit_hashrate : ℕ → Bytes → EthRequest Value
  submit_work : Bytes → Bytes → Bytes → EthRequest Value
  send_transaction : TransactionRequest → EthRequest Value
  send_raw_transaction : Bytes → EthRequest Value
  sign : Bytes → Bytes → EthRequest Value
  sign_transaction : TransactionRequest → EthRequest Value
  sign_typed_data : Bytes → Value → EthRequest Value
  get_proof : Bytes → List Bytes → Option BlockId → EthRequest Value
  new_filter : Filter → EthRequest Value
  new_block_filter : EthRequest Value
  new_pending_transaction_filter : EthRequest Value
  uninstall_filter : ℕ → EthRequest Value
  get_filter_changes : ℕ → EthRequest Value
  get_filter_logs : ℕ → EthRequest Value
  block_receipts : Option BlockId → EthRequest Value

-- The name under which a method is registered.
unfoldable pub method_name : {Value : Type 0} → EthRequest Value → String
method_name EthRequest.block_number = "eth_blockNumber"
method_name EthRequest.syncing = "eth_syncing"
method_name EthRequest.coinbase = "eth_coinbase"
method_name EthRequest.accounts = "eth_accounts"
method_name EthRequest.chain_id = "eth_chainId"
method_name (EthRequest.block_by_hash _ _) = "eth_getBlockByHash"
method_name (EthRequest.block_by_number _ _) = "eth_getBlockByNumber"
method_name (EthRequest.block_transaction_count_by_hash _) = "eth_getBlockTransactionCountByHash"
method_name (EthRequest.block_transaction_count_by_number _) =
    "eth_getBlockTransactionCountByNumber"
method_name (EthRequest.block_uncles_count_by_block_hash _) = "eth_getUncleCountByBlockHash"
method_name (EthRequest.block_uncles_count_by_block_number _) = "eth_getUncleCountByBlockNumber"
method_name (EthRequest.uncle_by_block_hash_and_index _ _) = "eth_getUncleByBlockHashAndIndex"
method_name (EthRequest.uncle_by_block_number_and_index _ _) = "eth_getUncleByBlockNumberAndIndex"
method_name (EthRequest.transaction_by_hash _) = "eth_getTransactionByHash"
method_name (EthRequest.transaction_by_block_hash_and_index _ _) =
    "eth_getTransactionByBlockHashAndIndex"
method_name (EthRequest.transaction_by_block_number_and_index _ _) =
    "eth_getTransactionByBlockNumberAndIndex"
method_name (EthRequest.transaction_receipt _) = "eth_getTransactionReceipt"
method_name (EthRequest.balance _ _) = "eth_getBalance"
method_name (EthRequest.storage_at _ _ _) = "eth_getStorageAt"
method_name (EthRequest.transaction_count _ _) = "eth_getTransactionCount"
method_name (EthRequest.get_code _ _) = "eth_getCode"
method_name (EthRequest.get_logs _) = "eth_getLogs"
method_name (EthRequest.call _ _) = "eth_call"
method_name (EthRequest.create_access_list _ _) = "eth_createAccessList"
method_name (EthRequest.estimate_gas _ _) = "eth_estimateGas"
method_name EthRequest.gas_price = "eth_gasPrice"
method_name (EthRequest.fee_history _ _) = "eth_feeHistory"
method_name EthRequest.max_priority_fee_per_gas = "eth_maxPriorityFeePerGas"
method_name EthRequest.blob_base_fee = "eth_blobBaseFee"
method_name EthRequest.mining = "eth_mining"
method_name EthRequest.hashrate = "eth_hashrate"
method_name EthRequest.get_work = "eth_getWork"
method_name (EthRequest.submit_hashrate _ _) = "eth_submitHashrate"
method_name (EthRequest.submit_work _ _ _) = "eth_submitWork"
method_name (EthRequest.send_transaction _) = "eth_sendTransaction"
method_name (EthRequest.send_raw_transaction _) = "eth_sendRawTransaction"
method_name (EthRequest.sign _ _) = "eth_sign"
method_name (EthRequest.sign_transaction _) = "eth_signTransaction"
method_name (EthRequest.sign_typed_data _ _) = "eth_signTypedData"
method_name (EthRequest.get_proof _ _ _) = "eth_getProof"
method_name (EthRequest.new_filter _) = "eth_newFilter"
method_name EthRequest.new_block_filter = "eth_newBlockFilter"
method_name EthRequest.new_pending_transaction_filter = "eth_newPendingTransactionFilter"
method_name (EthRequest.uninstall_filter _) = "eth_uninstallFilter"
method_name (EthRequest.get_filter_changes _) = "eth_getFilterChanges"
method_name (EthRequest.get_filter_logs _) = "eth_getFilterLogs"
method_name (EthRequest.block_receipts _) = "eth_getBlockReceipts"
