-- ===== src/EthProvider/Provider/Logs.antt =====
-- `get_logs`: the range of blocks of a filter, and the query that it becomes.
pub mod Range
pub mod Found
use kakarot_rpc.Prelude.{
  ℕ, Bool, true, false, Option, none, some, unwrap_or, List, [], ◌∷◌, map, filter_map, flat_map,
  length, ltb, ◌^◌, if◌then◌else◌,
}
use kakarot_rpc.Prelude.Bytes.{Bytes}
use kakarot_rpc.Prelude.Int.{pos}
use kakarot_rpc.Prelude.Result.{Result, ok, err, ◌>>=◌}
use kakarot_rpc.Models.Errors.{from_uint_error}
use kakarot_rpc.EthProvider.Document.{
  Bson, Document, field, document, items, string, path, int, doc, insert,
}
use kakarot_rpc.EthProvider.Utils.{primitive_hex, format_hex}
use kakarot_rpc.EthProvider.Database.{EthProviderResult, StoredLog, deserialize_log, get}
use kakarot_rpc.EthProvider.Provider.{Environment, or_conversion_error, try_u64}
use kakarot_rpc.EthProvider.Provider.Blocks.{State, block_number}

-- `ValueOrArray`
pub data ValueOrArray {ℓ} (A : Type ℓ) : Type ℓ where
  value : A → ValueOrArray A
  array : List A → ValueOrArray A

-- `Filter`, by what `get_from_block`, `get_to_block` and `to_value_or_array` give. The filter of the
-- code has four positions of topics; here it may have any number of them.
pub record Filter : Type 0 where
  pub from_block : Option ℕ
  pub to_block : Option ℕ
  pub topics : List (Option (ValueOrArray Bytes))
  pub address : Option (ValueOrArray Bytes)

pub data FilterChanges (Log : Type 0) : Type 0 where
  empty : FilterChanges Log
  logs : List Log → FilterChanges Log

-- Both arms of the `match` on a `ValueOrArray`
abbrev pub values {ℓ} : {A : Type ℓ} → ValueOrArray A → List A
values (ValueOrArray.value v) = v ∷ []
values (ValueOrArray.array vs) = vs

-- The first and the last block of a query; `none` where there is nothing to ask for.
unfoldable pub block_range : ℕ → Option ℕ → Option ℕ → Option (ℕ × ℕ)
block_range current_block from_block to_block =
    let from = unwrap_or from_block 0 in
    let to = unwrap_or to_block current_block in
    if ltb current_block from
    then none
    else if ltb current_block to
    then some (from, current_block)
    else if ltb to from
    then none
    else some (from, to)

-- The topics of all positions in one list.
unfoldable pub flatten_topics : List (Option (ValueOrArray Bytes)) → List Bytes
flatten_topics topics = flat_map values (filter_map (λ t. t) topics)

module _ (E : Environment) where
  open E use {database as D, primitives as X}

  abbrev insert_address : Option (ValueOrArray Bytes) → Document → Document
  insert_address none filter = filter
  insert_address (some adds) filter =
      insert "log.address"
        (document (
          doc "$in"
            (Bson.array (items (map (λ a. string (format_hex X.hex_address a 40)) (values adds))))))
        filter

  -- The stored block number lies in the range, and the stored topics, cut to the number of the
  -- given ones, equal them.
  unfoldable pub log_filter : ℕ → ℕ → List Bytes → Option (ValueOrArray Bytes) → Document
  log_filter from to topics address = insert_address address (
      field "log.blockNumber"
        (document (
          field "$gte" (string (format_hex primitive_hex from 64))
            (field "$lte" (string (format_hex primitive_hex to 64)) Document.empty)))
        (field "$expr"
          (document (
            doc "$eq" (
              Bson.array (
                items (
                  document (
                    doc "$slice"
                      (Bson.array (items (path "$log.topics" ∷ int (pos (length topics)) ∷ []))))
                  ∷ Bson.array (items (map (λ t. string (format_hex X.hex_b256 t 64)) topics))
                  ∷ [])))))
          Document.empty))

  abbrev log_of : StoredLog D → D.Log
  log_of l = l.log

  abbrev logs_in : Filter → Option (ℕ × ℕ) → EthProviderResult (FilterChanges D.Log)
  logs_in filter none = ok FilterChanges.empty
  logs_in filter (some (from, to)) = do
    found ←
        get D (deserialize_log D) "logs"
          (some (log_filter from to (flatten_topics filter.topics) filter.address)) none
    ok (FilterChanges.logs (map log_of found))

  unfoldable pub get_logs : State E → Filter → EthProviderResult (FilterChanges D.Log)
  get_logs s filter = do
    number ← block_number E s
    current_block ← or_conversion_error (try_u64 (from_uint_error X.from_uint_message) number)
    logs_in filter (block_range current_block filter.from_block filter.to_block)
