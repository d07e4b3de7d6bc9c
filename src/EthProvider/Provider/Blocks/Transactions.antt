-- ===== src/EthProvider/Provider/Blocks/Transactions.antt =====
-- Transactions and receipts by their hashes, their blocks and their places in them.
use kakarot_rpc.Prelude.{ℕ, Bool, true, false, Option, none, some, List, map, unwrap_or}
use mathlib.Core.Option
use kakarot_rpc.Prelude.Bytes.{Bytes}
use kakarot_rpc.Prelude.Result.{ok, ◌>>=◌}
use kakarot_rpc.Models.Block.{BlockNumberOrTag, BlockId}
use kakarot_rpc.EthProvider.Document.{Document, string, insert}
use kakarot_rpc.EthProvider.Utils.{primitive_hex, format_hex, into_filter}
use kakarot_rpc.EthProvider.Database.{
  EthProviderResult, StoredTransactionReceipt, deserialize_transaction, deserialize_receipt, get,
  get_one,
}
use kakarot_rpc.EthProvider.Provider.{Environment}
use kakarot_rpc.EthProvider.Provider.Blocks.{
  State, BlockHashOrNumber, tag_into_block_number, block_exists, transaction_of,
}

module _ (E : Environment) where
  open E use {database as D, primitives as X}

  abbrev receipt_of : StoredTransactionReceipt D → D.Receipt
  receipt_of r = r.receipt

  abbrev find_transaction : Document → EthProviderResult (Option D.Transaction)
  find_transaction filter = do
    tx ← get_one D (deserialize_transaction D) "transactions" (some filter) none
    ok (Option.map (transaction_of E) tx)

  unfoldable pub transaction_by_hash : Bytes → EthProviderResult (Option D.Transaction)
  transaction_by_hash h = find_transaction (into_filter X.hex_b256 "tx.hash" h 64)

  abbrev at_index : Document → ℕ → Document
  at_index filter index =
      insert "tx.transactionIndex" (string (format_hex primitive_hex index 64)) filter

  unfoldable pub transaction_by_block_hash_and_index :
      Bytes → ℕ → EthProviderResult (Option D.Transaction)
  transaction_by_block_hash_and_index h index =
      find_transaction (at_index (into_filter X.hex_b256 "tx.blockHash" h 64) index)

  unfoldable pub transaction_by_block_number_and_index :
      State E → BlockNumberOrTag → ℕ → EthProviderResult (Option D.Transaction)
  transaction_by_block_number_and_index s number_or_tag index = do
    n ← tag_into_block_number E s number_or_tag
    find_transaction (at_index (into_filter X.hex_u64 "tx.blockNumber" n 64) index)

  unfoldable pub transaction_receipt : Bytes → EthProviderResult (Option D.Receipt)
  transaction_receipt h = do
    tx ←
        get_one D (deserialize_receipt D) "receipts"
          (some (into_filter X.hex_b256 "receipt.transactionHash" h 64)) none
    ok (Option.map receipt_of tx)

  abbrev receipts_if : Bool → Document → EthProviderResult (Option (List D.Receipt))
  receipts_if false filter = ok none
  receipts_if true filter = do
    txs ← get D (deserialize_receipt D) "receipts" (some filter) none
    ok (some (map receipt_of txs))

  abbrev receipts_of : State E → BlockId → EthProviderResult (Option (List D.Receipt))
  receipts_of s (BlockId.number maybe_number) = do
    n ← tag_into_block_number E s maybe_number
    exists ← block_exists E (BlockHashOrNumber.number n)
    receipts_if exists (into_filter X.hex_u64 "receipt.blockNumber" n 64)
  receipts_of s (BlockId.hash h) = do
    exists ← block_exists E (BlockHashOrNumber.hash h.block_hash)
    receipts_if exists (into_filter X.hex_b256 "receipt.blockHash" h.block_hash 64)

  unfoldable pub block_receipts :
      State E → Option BlockId → EthProviderResult (Option (List D.Receipt))
  block_receipts s block_id =
      receipts_of s (unwrap_or block_id (BlockId.number BlockNumberOrTag.latest))
