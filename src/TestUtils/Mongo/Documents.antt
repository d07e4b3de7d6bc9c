-- ===== src/TestUtils/Mongo/Documents.antt =====
-- The documents of the tests' database (src/test_utils/mongo/mod.rs).
use kakarot_rpc.Prelude.{
  ℕ, String, ◌^◌, ◌<◌, Option, none, some, List, [], ◌∷◌, ◌++◌, ◌≡◌, sym, ap, ◌∙◌, arith,
}
use kakarot_rpc.Prelude.Bytes.{Bytes, to_be_bytes}
use kakarot_rpc.Prelude.Hex.{Text, hex_digits, pad_zeros, pad_zeros-hex_digits}
use kakarot_rpc.Prelude.Result.{Result, ok, ◌>>=◌}
use kakarot_rpc.EthProvider.Document.{
  Bson, Document, string, document, array, items, null, doc, field, empty,
}
use kakarot_rpc.EthProvider.Utils.{LowerHex, primitive_hex, prefix_0x, format_hex}
use kakarot_rpc.EthProvider.Utils.FormatHex.{format_hex-u64}
use kakarot_rpc.TestUtils.Mongo.{Driver, update_many}

-- `format!("0x{:0width$x}", n)` of an integer of at most 64 bits.
unfoldable pub hex_text : ℕ → ℕ → Text
hex_text width n = prefix_0x ++ pad_zeros width (hex_digits 16 n)

abbrev pub mock_block_number : ℕ
mock_block_number = 0x1234

abbrev pub mock_block_hash : Bytes
mock_block_hash = to_be_bytes 32 0x1234

-- `doc! { … }`
abbrev fields : List (String × Bson) → Document
fields [] = empty
fields (e ∷ es) = field e.0 e.1 (fields es)

abbrev ox : Bson
ox = string prefix_0x

abbrev zero_text : Bson
zero_text = string (hex_text 64 0)

abbrev one_text : Bson
one_text = string (hex_text 64 1)

-- `empty_root_hash` and `hex_b256` are of `reth`; the text of the empty root hash has no prefix.
module _ (empty_root_hash : Bytes) (hex_b256 : LowerHex Bytes) where
  abbrev root_text : Bson
  root_text = string (hex_b256.digits 64 empty_root_hash)

  abbrev block_hash_text : Bson
  block_hash_text = string (prefix_0x ++ hex_b256.digits 64 mock_block_hash)

  abbrev base_fee_field : Option Bson → List (String × Bson) → List (String × Bson)
  base_fee_field none es = es
  base_fee_field (some fee) es = ("baseFeePerGas", fee) ∷ es

  abbrev pub header_document : Bson → Bson → Option Bson → Document
  header_document hash number base_fee = doc "header" (
      document (
        fields (
          ("hash", hash)
          ∷ ("parentHash", zero_text)
          ∷ ("sha3Uncles", zero_text)
          ∷ ("miner", (string (hex_text 40 0)))
          ∷ ("stateRoot", zero_text)
          ∷ ("transactionsRoot", zero_text)
          ∷ ("receiptsRoot", zero_text)
          ∷ ("logsBloom", (string (hex_text 512 0)))
          ∷ ("difficulty", zero_text)
          ∷ ("number", number)
          ∷ ("gasLimit", one_text)
          ∷ ("gasUsed", one_text)
          ∷ ("timestamp", zero_text)
          ∷ ("extraData", ox)
          ∷ ("mixHash", zero_text)
          ∷ (base_fee_field base_fee (("withdrawalsRoot", root_text) ∷ [])))))

  -- Blocks 0 to 3, with the zero hash.
  unfoldable pub first_headers : List Document
  unfolding hex_text
  first_headers =
      header_document zero_text zero_text none
      ∷ header_document zero_text one_text (some one_text)
      ∷ header_document zero_text (string (hex_text 64 2)) (some one_text)
      ∷ header_document zero_text (string (hex_text 64 3)) (some one_text)
      ∷ []

  -- The block of the tests.
  unfoldable pub mock_headers : List Document
  unfolding hex_text
  mock_headers =
      header_document block_hash_text (string (hex_text 64 mock_block_number)) (some one_text) ∷ []

  abbrev pub tx_document : Bson → Document
  tx_document hash = doc "tx" (
      document (
        fields (
          ("hash", hash)
          ∷ ("nonce", zero_text)
          ∷ ("blockHash", block_hash_text)
          ∷ ("blockNumber", (string (hex_text 64 mock_block_number)))
          ∷ ("transactionIndex", zero_text)
          ∷ ("from", (string (hex_text 40 0)))
          ∷ ("value", zero_text)
          ∷ ("gas", zero_text)
          ∷ ("input", ox)
          ∷ [])))

  unfoldable pub mock_transactions : List Document
  unfolding hex_text
  mock_transactions =
      tx_document zero_text ∷ tx_document one_text ∷ tx_document (string (hex_text 64 2)) ∷ []

  abbrev pub receipt_document : Bson → Document
  receipt_document hash = doc "receipt" (
      document (
        fields (
          ("transactionHash", hash)
          ∷ ("transactionIndex", zero_text)
          ∷ ("blockHash", block_hash_text)
          ∷ ("blockNumber", (string (hex_text 64 mock_block_number)))
          ∷ ("from", (string (hex_text 40 0)))
          ∷ ("to", (string (hex_text 40 0)))
          ∷ ("cumulativeGasUsed", zero_text)
          ∷ ("effectiveGasPrice", zero_text)
          ∷ ("gasUsed", zero_text)
          ∷ ("contractAddress", null)
          ∷ ("logs", (array (items [])))
          ∷ ("logsBloom", (string (hex_text 512 0)))
          ∷ ("type", zero_text)
          ∷ ("status", zero_text)
          ∷ [])))

  unfoldable pub mock_receipts : List Document
  unfolding hex_text
  mock_receipts =
      receipt_document zero_text
      ∷ receipt_document one_text
      ∷ receipt_document (string (hex_text 64 2))
      ∷ []

  module _ (D : Driver) where
    pub record MockDatabase : Type 0 where
      pub headers : D.Collection
      pub transactions : D.Collection
      pub receipts : D.Collection

    -- `mock_database`, from the collections that are there.
    unfoldable pub mock_database : MockDatabase → Result String MockDatabase
    mock_database db = do
      headers ← update_many D "header" "number" db.headers (first_headers ++ mock_headers)
      transactions ← update_many D "tx" "hash" db.transactions mock_transactions
      receipts ← update_many D "receipt" "transactionHash" db.receipts mock_receipts
      ok (record { headers = headers; transactions = transactions; receipts = receipts })

-- The numbers of the documents are written as the provider writes them into its filters, at 64
-- digits, so that its queries find them.
pub hex_text-format_hex : (n : ℕ) → n < 2 ^ 64 → hex_text 64 n ≡ format_hex primitive_hex n 64
unfolding hex_text
hex_text-format_hex n h =
    ap (λ r. prefix_0x ++ r) (pad_zeros-hex_digits 15 63 n (omega arith) (omega arith))
    ∙ sym (format_hex-u64 n 64 h (omega arith))
