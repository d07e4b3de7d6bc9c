-- ===== src/EthProvider/Provider/Blocks.antt =====
-- Blocks, transactions and receipts, and the numbers and identifiers of blocks.
pub mod Counts
pub mod Transactions
pub mod StarknetIds
use kakarot_rpc.Prelude.{
  ℕ, String, Bool, true, false, Option, none, some, List, [], ◌∷◌, map, replicate, is_some,
  unwrap_or, ◌&&◌, not, ◌==◌, ltb, ◌^◌, if◌then◌else◌,
}
use mathlib.Core.Option
use kakarot_rpc.Prelude.Bytes.{Bytes}
use kakarot_rpc.Prelude.Int.{pos, negsuc}
use kakarot_rpc.Prelude.Result.{Result, ok, err, panic, ◌>>=◌, ok_or, map_err}
use kakarot_rpc.Models.Errors.{value_out_of_range}
use kakarot_rpc.Models.Block.{
  BlockNumberOrTag, BlockId, BlockTag, StarknetBlockId, starknet_id_of_tag, starknet_id_of_block,
  RpcBlockHash,
}
use kakarot_rpc.EthProvider.Error.{EthProviderError}
use kakarot_rpc.EthProvider.Document.{Document, empty, doc, int, string, insert}
use kakarot_rpc.EthProvider.Utils.{LowerHex, primitive_hex, format_hex, into_filter, iter_into}
use kakarot_rpc.EthProvider.Database.{
  EthProviderResult, Header, StoredHeader, StoredTransaction, StoredTransactionHash,
  StoredTransactionReceipt, deserialize_header, deserialize_transaction,
  deserialize_transaction_hash, deserialize_receipt, get, get_one, count,
}
use kakarot_rpc.EthProvider.Provider.{Environment, or_provider_error, or_conversion_error, try_u64}

abbrev pub bytes_eq : Bytes → Bytes → Bool
bytes_eq [] [] = true
bytes_eq [] (y ∷ ys) = false
bytes_eq (x ∷ xs) [] = false
bytes_eq (x ∷ xs) (y ∷ ys) = x == y && bytes_eq xs ys

-- `B256::ZERO`, which is `B256::default()` too
abbrev pub zero_b256 : Bytes
zero_b256 = replicate 32 0

-- `BlockHashOrNumber`
pub data BlockHashOrNumber : Type 0 where
  hash : Bytes → BlockHashOrNumber
  number : ℕ → BlockHashOrNumber

pub data BlockTransactions (Tx : Type 0) : Type 0 where
  full : List Tx → BlockTransactions Tx
  hashes : List Bytes → BlockTransactions Tx

-- `RichBlock`, the fields that the code sets
pub record Block (Tx : Type 0) : Type 0 where
  pub header : Header
  pub transactions : BlockTransactions Tx
  pub total_difficulty : Option ℕ
  pub uncles : List Bytes
  pub size : Option ℕ
  pub withdrawals : Option (List (Unit {0}))

abbrev hash_projection : Option Document
hash_projection = some (doc "tx.hash" (int (pos 1)))

module _ (E : Environment) where
  open E use {database as D, node as N, primitives as X}

  abbrev pub State : Type 0
  State = N.State

  -- The number of a header; with no header, the node's.
  abbrev block_number_of : State → Option StoredHeader → EthProviderResult ℕ
  block_number_of s none = or_provider_error (N.block_number s)
  block_number_of s (some h) = do
    n ← ok_or (EthProviderError.value_not_found "Block") h.header.number
    or_conversion_error (try_u64 (value_out_of_range "Block number too large") n)

  -- The sort puts the greatest number first.
  unfoldable pub block_number : State → EthProviderResult ℕ
  block_number s = do
    header ←
        get_one D (deserialize_header D) "headers" (some empty)
          (some (doc "header.number" (int (negsuc 0))))
    block_number_of s header

  unfoldable pub tag_into_block_number : State → BlockNumberOrTag → EthProviderResult ℕ
  tag_into_block_number s BlockNumberOrTag.earliest = ok 0
  tag_into_block_number s (BlockNumberOrTag.number n) = ok n
  tag_into_block_number s BlockNumberOrTag.latest = block_number s
  tag_into_block_number s BlockNumberOrTag.finalized = block_number s
  tag_into_block_number s BlockNumberOrTag.safe = block_number s
  tag_into_block_number s BlockNumberOrTag.pending = block_number s

  abbrev pub header_filter : BlockHashOrNumber → Document
  header_filter (BlockHashOrNumber.hash h) = into_filter X.hex_b256 "header.hash" h 64
  header_filter (BlockHashOrNumber.number n) = into_filter primitive_hex "header.number" n 64

  unfoldable pub header : BlockHashOrNumber → EthProviderResult (Option StoredHeader)
  header id = get_one D (deserialize_header D) "headers" (some (header_filter id)) none

  unfoldable pub block_exists : BlockHashOrNumber → EthProviderResult Bool
  block_exists id = do found ← header id; ok (is_some found)

  abbrev pub transactions_filter : BlockHashOrNumber → Document
  transactions_filter (BlockHashOrNumber.hash h) = into_filter X.hex_b256 "tx.blockHash" h 64
  transactions_filter (BlockHashOrNumber.number n) = into_filter primitive_hex "tx.blockNumber" n 64

  -- `From` of the stored types
  abbrev pub transaction_of : StoredTransaction D → D.Transaction
  transaction_of t = t.tx

  abbrev hash_of : StoredTransactionHash → Bytes
  hash_of t = t.tx_hash.hash

  unfoldable pub block_transactions :
      BlockHashOrNumber → Bool → EthProviderResult (BlockTransactions D.Transaction)
  block_transactions id true = do
    txs ← get D (deserialize_transaction D) "transactions" (some (transactions_filter id)) none
    ok (BlockTransactions.full (iter_into transaction_of txs))
  block_transactions id false = do
    txs ←
        get D (deserialize_transaction_hash D) "transactions" (some (transactions_filter id))
          hash_projection
    ok (BlockTransactions.hashes (iter_into hash_of txs))

  -- Withdrawals are not supported: their root has to be that of the empty tree.
  abbrev finish_block :
      Header → BlockTransactions D.Transaction → EthProviderResult (Option (Block D.Transaction))
  finish_block h txs =
      if not (bytes_eq (unwrap_or h.withdrawals_root zero_b256) X.empty_root_hash)
      then err (EthProviderError.other "Withdrawals are not supported")
      else ok (
          some (record {
            header = h;
            transactions = txs;
            total_difficulty = some h.difficulty;
            uncles = [];
            size = none;
            withdrawals = some [];
          }))

  abbrev block_of :
      BlockHashOrNumber
      → Bool
      → Option StoredHeader
      → EthProviderResult (Option (Block D.Transaction))
  block_of id is_full none = ok none
  block_of id is_full (some h) = do txs ← block_transactions id is_full; finish_block h.header txs

  unfoldable pub block : BlockHashOrNumber → Bool → EthProviderResult (Option (Block D.Transaction))
  block id is_full = do found ← header id; block_of id is_full found

  unfoldable pub block_by_hash : Bytes → Bool → EthProviderResult (Option (Block D.Transaction))
  block_by_hash h is_full = block (BlockHashOrNumber.hash h) is_full

  unfoldable pub block_by_number :
      State → BlockNumberOrTag → Bool → EthProviderResult (Option (Block D.Transaction))
  block_by_number s number_or_tag is_full = do
    n ← tag_into_block_number s number_or_tag
    block (BlockHashOrNumber.number n) is_full

  abbrev count_if : Bool → Document → EthProviderResult (Option ℕ)
  count_if false filter = ok none
  count_if true filter = do n ← count D "transactions" (some filter); ok (some n)

  unfoldable pub block_transaction_count_by_hash : Bytes → EthProviderResult (Option ℕ)
  block_transaction_count_by_hash h = do
    exists ← block_exists (BlockHashOrNumber.hash h)
    count_if exists (into_filter X.hex_b256 "tx.blockHash" h 64)

  unfoldable pub block_transaction_count_by_number :
      State → BlockNumberOrTag → EthProviderResult (Option ℕ)
  block_transaction_count_by_number s number_or_tag = do
    n ← tag_into_block_number s number_or_tag
    exists ← block_exists (BlockHashOrNumber.number n)
    count_if exists (into_filter X.hex_u64 "tx.blockNumber" n 64)

  -- A stored block with hash zero is the pending block of Starknet, which has no number there.
  abbrev starknet_id_of_header :
      ℕ → Option StoredHeader → EthProviderResult (StarknetBlockId E.field)
  starknet_id_of_header n found = do
    h ← ok_or (EthProviderError.value_not_found "Block") found
    block_hash ← ok_or (EthProviderError.value_not_found "Block") h.header.hash
    if bytes_eq block_hash zero_b256
        then ok (StarknetBlockId.tag BlockTag.pending)
        else ok (StarknetBlockId.number n)

  unfoldable pub to_starknet_block_id : Option BlockId → EthProviderResult (StarknetBlockId E.field)
  to_starknet_block_id none = ok (StarknetBlockId.tag BlockTag.pending)
  to_starknet_block_id (some (BlockId.hash h)) =
      or_conversion_error (starknet_id_of_block E.field (BlockId.hash h))
  to_starknet_block_id (some (BlockId.number (BlockNumberOrTag.number n))) = do
    found ← header (BlockHashOrNumber.number n)
    starknet_id_of_header n found
  to_starknet_block_id (some (BlockId.number tag)) = ok (starknet_id_of_tag E.field tag)
