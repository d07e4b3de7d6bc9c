-- ===== src/EthProvider/Database.antt =====
-- The database (src/eth_provider/database): the collections of a MongoDB database, the documents
-- that the code stores in them, and `Database`. The driver and `serde` are the parameter
-- `MongoDatabase`. Every read of a request is answered by one state of the database.
pub mod Reads
pub mod Ranges
use kakarot_rpc.Prelude.{ℕ, String, Option, none, some, List, map}
use kakarot_rpc.Prelude.Bytes.{Bytes}
use kakarot_rpc.Prelude.Result.{Result, ok, err, ◌>>=◌, map_err, try_collect}
use kakarot_rpc.EthProvider.Document.{Document}
use kakarot_rpc.EthProvider.Error.{EthProviderError, mongo_db_error}

abbrev pub EthProviderResult {ℓ} : Type ℓ → Type ℓ
EthProviderResult A = Result EthProviderError A

-- `reth_rpc_types::Header`, the fields that the code reads.
pub record Header : Type 0 where
  pub hash : Option Bytes
  pub number : Option ℕ
  pub difficulty : ℕ
  pub gas_limit : ℕ
  pub gas_used : ℕ
  pub base_fee_per_gas : Option ℕ
  pub withdrawals_root : Option Bytes

-- Errors of the driver and of `serde` are their texts.
pub record MongoDatabase : Type 1 where
  -- a BSON value, and a `HashMap<String, Value>`
  pub Raw : Type 0
  pub Fields : Type 0
  -- transactions, receipts and logs of `reth_rpc_types`, which the code passes on unread
  pub Transaction : Type 0
  pub Receipt : Type 0
  pub Log : Type 0
  -- `Collection::find`, with a filter and a projection, up to the documents of its cursor
  pub find : String → Option Document → Option Document → Result String (List Raw)
  -- `Collection::find_one`, with a filter and a sort
  pub find_one : String → Option Document → Option Document → Result String (Option Raw)
  pub count_documents : String → Option Document → Result String ℕ
  -- what `derive(Deserialize)` does with a struct: the value of one field
  pub struct_field : String → Raw → Result String Raw
  pub as_b256 : Raw → Result String Bytes
  pub as_map : Raw → Result String Fields
  -- `T::deserialize(MapDeserializer::new(…))`
  pub header_of_map : Fields → Result String Header
  pub transaction_of_map : Fields → Result String Transaction
  pub receipt_of_map : Fields → Result String Receipt
  pub log_of_map : Fields → Result String Log
  -- `serde::de::Error::custom`
  pub custom : String → String

pub record StoredHeader : Type 0 where
  pub header : Header

module _ (D : MongoDatabase) where
  pub record StoredTransaction : Type 0 where
    pub tx : D.Transaction

  pub record StoredTransactionReceipt : Type 0 where
    pub receipt : D.Receipt

  pub record StoredLog : Type 0 where
    pub log : D.Log

  -- First into a map of JSON values, then from that map.
  unfoldable pub deserialize_intermediate :
      {T : Type 0} → (D.Fields → Result String T) → D.Raw → Result String T
  deserialize_intermediate of_map raw = do s ← D.as_map raw; map_err D.custom (of_map s)

  unfoldable pub deserialize_header : D.Raw → Result String StoredHeader
  unfolding deserialize_intermediate
  deserialize_header raw = do
    field ← D.struct_field "header" raw
    header ← deserialize_intermediate D.header_of_map field
    ok (record { header = header })

  unfoldable pub deserialize_transaction : D.Raw → Result String StoredTransaction
  unfolding deserialize_intermediate
  deserialize_transaction raw = do
    field ← D.struct_field "tx" raw
    tx ← deserialize_intermediate D.transaction_of_map field
    ok (record { tx = tx })

  unfoldable pub deserialize_receipt : D.Raw → Result String StoredTransactionReceipt
  unfolding deserialize_intermediate
  deserialize_receipt raw = do
    field ← D.struct_field "receipt" raw
    receipt ← deserialize_intermediate D.receipt_of_map field
    ok (record { receipt = receipt })

  unfoldable pub deserialize_log : D.Raw → Result String StoredLog
  unfolding deserialize_intermediate
  deserialize_log raw = do
    field ← D.struct_field "log" raw
    log ← deserialize_intermediate D.log_of_map field
    ok (record { log = log })

-- `Hash`, of a transaction that was projected to its hash
pub record Hash : Type 0 where
  pub hash : Bytes

pub record StoredTransactionHash : Type 0 where
  pub tx_hash : Hash

module _ (D : MongoDatabase) where
  unfoldable pub deserialize_transaction_hash : D.Raw → Result String StoredTransactionHash
  deserialize_transaction_hash raw = do
    tx ← D.struct_field "tx" raw
    field ← D.struct_field "hash" tx
    hash ← D.as_b256 field
    ok (record { tx_hash = record { hash = hash } })

  module _ {T : Type 0} (deserialize : D.Raw → Result String T) where
    -- `Database::get`
    unfoldable pub get : String → Option Document → Option Document → EthProviderResult (List T)
    get collection filter project =
        map_err mongo_db_error
          (do raws ← D.find collection filter project; try_collect (map deserialize raws))

    abbrev deserialize_one : Option D.Raw → Result String (Option T)
    deserialize_one none = ok none
    deserialize_one (some raw) = do value ← deserialize raw; ok (some value)

    -- `Database::get_one`
    unfoldable pub get_one :
        String → Option Document → Option Document → EthProviderResult (Option T)
    get_one collection filter sort =
        map_err mongo_db_error (do raw ← D.find_one collection filter sort; deserialize_one raw)

  -- `Database::count`
  unfoldable pub count : String → Option Document → EthProviderResult ℕ
  count collection filter = map_err mongo_db_error (D.count_documents collection filter)
