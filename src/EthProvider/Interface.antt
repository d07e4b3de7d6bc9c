-- ===== src/EthProvider/Interface.antt =====
-- The trait `EthereumProvider` (src/eth_provider/provider.rs) as an interface: the servers are
-- written against it, and `EthDataProvider` fills it.
use kakarot_rpc.Prelude.{ℕ, Bool, Option, List}
use kakarot_rpc.Prelude.Bytes.{Bytes}
use kakarot_rpc.Models.Block.{BlockNumberOrTag, BlockId}
use kakarot_rpc.EthProvider.Database.{EthProviderResult}
use kakarot_rpc.EthProvider.Provider.{Environment}
use kakarot_rpc.EthProvider.Provider.Blocks.{
  Block, block_number, block_by_hash, block_by_number, block_transaction_count_by_hash,
  block_transaction_count_by_number,
}
use kakarot_rpc.EthProvider.Provider.Blocks.Transactions.{
  transaction_by_hash, transaction_by_block_hash_and_index, transaction_by_block_number_and_index,
  transaction_receipt, block_receipts,
}
use kakarot_rpc.EthProvider.Provider.Accounts.{
  SyncStatus, syncing, chain_id, balance, storage_at, transaction_count, get_code, gas_price,
}
use kakarot_rpc.EthProvider.Provider.Calls.{TransactionRequest, call, estimate_gas}
use kakarot_rpc.EthProvider.Provider.Logs.{Filter, FilterChanges, get_logs}
use kakarot_rpc.EthProvider.Provider.Fees.{FeeHistory, fee_history}
use kakarot_rpc.EthProvider.Provider.Send.{Features, SendState, send_raw_transaction}

pub record EthereumProvider : Type 1 where
  pub State : Type 0
  pub Transaction : Type 0
  pub Receipt : Type 0
  pub Log : Type 0
  pub Float : Type 0
  pub block_number : State → EthProviderResult ℕ
  pub syncing : State → EthProviderResult SyncStatus
  pub chain_id : State → EthProviderResult (Option ℕ)
  pub block_by_hash : State → Bytes → Bool → EthProviderResult (Option (Block Transaction))
  pub block_by_number :
      State → BlockNumberOrTag → Bool → EthProviderResult (Option (Block Transaction))
  pub block_transaction_count_by_hash : State → Bytes → EthProviderResult (Option ℕ)
  pub block_transaction_count_by_number : State → BlockNumberOrTag → EthProviderResult (Option ℕ)
  pub transaction_by_hash : State → Bytes → EthProviderResult (Option Transaction)
  pub transaction_by_block_hash_and_index :
      State → Bytes → ℕ → EthProviderResult (Option Transaction)
  pub transaction_by_block_number_and_index :
      State → BlockNumberOrTag → ℕ → EthProviderResult (Option Transaction)
  pub transaction_receipt : State → Bytes → EthProviderResult (Option Receipt)
  pub balance : State → Bytes → Option BlockId → EthProviderResult ℕ
  pub storage_at : State → Bytes → ℕ → Option BlockId → EthProviderResult Bytes
  pub transaction_count : State → Bytes → Option BlockId → EthProviderResult ℕ
  pub get_code : State → Bytes → Option BlockId → EthProviderResult Bytes
  pub get_logs : State → Filter → EthProviderResult (FilterChanges Log)
  pub call : State → TransactionRequest → Option BlockId → EthProviderResult Bytes
  pub estimate_gas : State → TransactionRequest → Option BlockId → EthProviderResult ℕ
  pub fee_history : State → ℕ → BlockNumberOrTag → EthProviderResult (FeeHistory Float)
  pub send_raw_transaction : State → Bytes → EthProviderResult Bytes × State
  pub gas_price : State → EthProviderResult ℕ
  pub block_receipts : State → Option BlockId → EthProviderResult (Option (List Receipt))

-- `impl EthereumProvider for EthDataProvider`
abbrev pub eth_data_provider : Environment → Features → EthereumProvider
eth_data_provider E features = record {
  State = SendState E;
  Transaction = E.database.Transaction;
  Receipt = E.database.Receipt;
  Log = E.database.Log;
  Float = E.primitives.Float;
  block_number = λ s. block_number E s.node;
  syncing = λ s. syncing E s.node;
  chain_id = λ s. chain_id E s.node;
  block_by_hash = λ s. block_by_hash E;
  block_by_number = λ s. block_by_number E s.node;
  block_transaction_count_by_hash = λ s. block_transaction_count_by_hash E;
  block_transaction_count_by_number = λ s. block_transaction_count_by_number E s.node;
  transaction_by_hash = λ s. transaction_by_hash E;
  transaction_by_block_hash_and_index = λ s. transaction_by_block_hash_and_index E;
  transaction_by_block_number_and_index = λ s. transaction_by_block_number_and_index E s.node;
  transaction_receipt = λ s. transaction_receipt E;
  balance = λ s. balance E s.node;
  storage_at = λ s. storage_at E s.node;
  transaction_count = λ s. transaction_count E s.node;
  get_code = λ s. get_code E s.node;
  get_logs = λ s. get_logs E s.node;
  call = λ s. call E s.node;
  estimate_gas = λ s. estimate_gas E s.node;
  fee_history = λ s. fee_history E s.node;
  send_raw_transaction = send_raw_transaction E features;
  gas_price = λ s. gas_price E s.node;
  block_receipts = λ s. block_receipts E s.node;
}
