-- ===== src/EthProvider/Provider/Blocks/Counts.antt =====
-- Blocks against the counts of their transactions.
use kakarot_rpc.Prelude.{
  ℕ, String, ◌≡◌, refl, ap, sym, ◌∙◌, Bool, true, false, Option, none, some, List, length,
  length-map, ◌↔◌, ◌≢◌, is_some, arith,
}
use kakarot_rpc.Prelude.Bytes.{Bytes}
use kakarot_rpc.Prelude.Result.{Result, ok, err, panic, ◌>>=◌, map_err}
use kakarot_rpc.EthProvider.Document.{Document, doc, string}
use kakarot_rpc.EthProvider.Database.{
  EthProviderResult, MongoDatabase, StoredHeader, get, count, Header, deserialize_transaction,
  deserialize_transaction_hash,
}
use kakarot_rpc.EthProvider.Database.Reads.{get-length, >>=-eq-ok, ok_injective}
use kakarot_rpc.EthProvider.Error.{mongo_db_error}
use kakarot_rpc.EthProvider.Utils.{into_filter, format_hex, primitive_hex}
use kakarot_rpc.Models.Block.{BlockNumberOrTag}
use kakarot_rpc.EthProvider.Provider.{Environment}
use kakarot_rpc.EthProvider.Provider.Blocks.{
  State, tag_into_block_number, block_by_number, block_transaction_count_by_number, Block,
  BlockTransactions, BlockHashOrNumber, header, block_exists, block, block_by_hash,
  block_transactions, transactions_filter, block_transaction_count_by_hash, finish_block, block_of,
  transaction_of, hash_of, hash_projection, count_if,
}

-- The driver counts what it finds: the number of documents of a filter, whatever the projection.
pub record CountsFound (D : MongoDatabase) : Type 0 where
  pub counts :
      (collection : String) (filter project : Option Document) (raws : List D.Raw)
      → D.find collection filter project ≡ ok raws
      → D.count_documents collection filter ≡ ok (length raws)

abbrev pub transactions_length : {Tx : Type 0} → BlockTransactions Tx → ℕ
transactions_length (BlockTransactions.full txs) = length txs
transactions_length (BlockTransactions.hashes hs) = length hs

module _ (E : Environment) (C : CountsFound E.database) where
  open E use {database as D}

  -- Of what a read returned, the count is the length.
  count_of_get :
      {T : Type 0} (deserialize : D.Raw → Result String T) (filter : Document)
      (project : Option Document) (ts : List T)
      → get D deserialize "transactions" (some filter) project ≡ ok ts
      → count D "transactions" (some filter) ≡ ok (length ts)
  unfolding count
  count_of_get deserialize filter project ts h =
      let (raws, found, same) =
        get-length D deserialize "transactions" (some filter) project ts h in
      ap (map_err mongo_db_error) (C.counts "transactions" (some filter) project raws found)
      ∙ ap ok (sym same)

  count_of_transactions :
      (id : BlockHashOrNumber) (is_full : Bool) (txs : BlockTransactions D.Transaction)
      → block_transactions E id is_full ≡ ok txs
      → count D "transactions" (some (transactions_filter E id)) ≡ ok (transactions_length txs)
  unfolding block_transactions
  count_of_transactions id true txs h =
      let (ts, e, k) =
        >>=-eq-ok (get D (deserialize_transaction D) "transactions" _ none) _ txs h in
      count_of_get (deserialize_transaction D) (transactions_filter E id) none ts e
      ∙ ap ok
          (sym (length-map (transaction_of E) ts) ∙ ap transactions_length (ok_injective _ txs k))
  count_of_transactions id false txs h =
      let (ts, e, k) =
        >>=-eq-ok (get D (deserialize_transaction_hash D) "transactions" _ hash_projection) _ txs
          h in
      count_of_get (deserialize_transaction_hash D) (transactions_filter E id) hash_projection ts e
      ∙ ap ok (sym (length-map (hash_of E) ts) ∙ ap transactions_length (ok_injective _ txs k))

  finish_block-transactions :
      (h : Header) (txs : BlockTransactions D.Transaction) (b : Block D.Transaction)
      → finish_block E h txs ≡ ok (some b)
      → txs ≡ b.transactions
  finish_block-transactions h txs b e = ground arith

  block_of-some :
      (id : BlockHashOrNumber) (is_full : Bool) (found : Option StoredHeader)
      (b : Block D.Transaction)
      → block_of E id is_full found ≡ ok (some b)
      → (is_some found ≡ true) × (block_transactions E id is_full ≡ ok b.transactions)
  block_of-some id is_full none b h = cc
  block_of-some id is_full (some hd) b h =
      let (txs, e, k) =
        >>=-eq-ok (block_transactions E id is_full) (finish_block E hd.header) (some b) h in
      (refl, e ∙ ap ok (finish_block-transactions hd.header txs b k))

  filter_same :
      (n : ℕ)
      → format_hex E.primitives.hex_u64 n 64 ≡ format_hex primitive_hex n 64
      → into_filter E.primitives.hex_u64 "tx.blockNumber" n 64
        ≡ transactions_filter E (BlockHashOrNumber.number n)
  unfolding into_filter
  filter_same n same = ap (λ t. doc "tx.blockNumber" (string t)) same

  -- If the driver counts what it finds, a block by hash has as many transactions as the count by
  -- hash says, in full or as hashes.
  pub count-block_by_hash :
      (hash : Bytes) (is_full : Bool) (b : Block D.Transaction)
      → block_by_hash E hash is_full ≡ ok (some b)
      → block_transaction_count_by_hash E hash ≡ ok (some (transactions_length b.transactions))
  unfolding block_by_hash block_transaction_count_by_hash block block_exists
  count-block_by_hash hash is_full b h =
      let id = BlockHashOrNumber.hash hash in
      let (found, e, k) = >>=-eq-ok (header E id) (block_of E id is_full) (some b) h in
      let (there, txs) = block_of-some id is_full found b k in
      rw (e, there, count_of_transactions id is_full b.transactions txs)

  -- If the driver counts what it finds and `U64` is written as `u64` is at 64 digits, a block by
  -- number or tag has as many transactions as the count by that number or tag says.
  pub count-block_by_number :
      (s : State E) (tag : BlockNumberOrTag) (n : ℕ) (is_full : Bool) (b : Block D.Transaction)
      → format_hex E.primitives.hex_u64 n 64 ≡ format_hex primitive_hex n 64
      → tag_into_block_number E s tag ≡ ok n
      → block_by_number E s tag is_full ≡ ok (some b)
      → block_transaction_count_by_number E s tag ≡ ok (some (transactions_length b.transactions))
  unfolding block_by_number block_transaction_count_by_number block block_exists
  count-block_by_number s tag n is_full b same known h =
      let id = BlockHashOrNumber.number n in
      let at_n : (header E id >>= block_of E id is_full) ≡ ok (some b) = rw known at h in
      let (found, e, k) = >>=-eq-ok (header E id) (block_of E id is_full) (some b) at_n in
      let (there, txs) = block_of-some id is_full found b k in
      rw (known, e, there, filter_same n same, count_of_transactions id is_full b.transactions txs)

block_of-ne-none :
    (E : Environment) (id : BlockHashOrNumber) (is_full : Bool) (h : StoredHeader)
    → block_of E id is_full (some h) ≢ ok none
block_of-ne-none E id is_full h = ground arith

module _ (E : Environment) (hash : Bytes) (is_full : Bool) where
  abbrev block_id : BlockHashOrNumber
  block_id = BlockHashOrNumber.hash hash

  -- The block, and its count, of a header that was read.
  abbrev block_read :
      EthProviderResult (Option StoredHeader)
      → EthProviderResult (Option (Block E.database.Transaction))
  block_read m = m >>= block_of E block_id is_full

  abbrev count_read : EthProviderResult (Option StoredHeader) → EthProviderResult (Option ℕ)
  count_read m = (m >>= λ found. ok (is_some found)) >>= λ exists.
      count_if E exists (into_filter E.primitives.hex_b256 "tx.blockHash" hash 64)

  no_block→no_count :
      (m : EthProviderResult (Option StoredHeader))
      → block_read m ≡ ok none
      → count_read m ≡ ok none
  no_block→no_count (ok none) h = refl
  no_block→no_count (ok (some x)) h = absurd (block_of-ne-none E block_id is_full x h)
  no_block→no_count (err e) h = cc
  no_block→no_count panic h = cc

  no_count→no_block :
      (m : EthProviderResult (Option StoredHeader))
      → count_read m ≡ ok none
      → block_read m ≡ ok none
  no_count→no_block (ok none) h = refl
  no_count→no_block (ok (some x)) h = ground arith
  no_count→no_block (err e) h = cc
  no_count→no_block panic h = cc

  -- There is no block by a hash exactly when there is no count of its transactions.
  pub no_block-iff-no_count :
      (block_by_hash E hash is_full ≡ ok none) ↔ (block_transaction_count_by_hash E hash ≡ ok none)
  unfolding block_by_hash block_transaction_count_by_hash block block_exists
  no_block-iff-no_count =
      (λ h. no_block→no_count (header E block_id) h, λ h. no_count→no_block (header E block_id) h)
