-- ===== src/Tests/Logs.antt =====
-- Databases that answer range queries on logs and on headers, and queries of them.
use Prim.Native.Nat.{Ordering}
use kakarot_rpc.Prelude.{
  ℕ, ◌+◌, ◌-◌, String, ◌≤◌, Bool, true, false, ◌&&◌, Option, none, some, List, [], ◌∷◌, ◌≡◌, ◌≢◌,
  refl, All, subst, arith, if◌then◌else◌,
}
use kakarot_rpc.Prelude.Hex.{Text}
use kakarot_rpc.Prelude.Result.{ok}
use kakarot_rpc.EthProvider.Document.{Document, field, document, string}
use kakarot_rpc.EthProvider.Utils.{primitive_hex, format_hex}
use kakarot_rpc.EthProvider.Utils.HexOrder.{text_compare}
use kakarot_rpc.EthProvider.Database.{
  Header, MongoDatabase, deserialize_log, deserialize_header, get, get_one,
}
use kakarot_rpc.EthProvider.Database.Reads.{ok_injective, Pairwise, StoredAt}
use kakarot_rpc.EthProvider.Provider.{Environment}
use kakarot_rpc.EthProvider.Provider.Blocks.{block_number}
use kakarot_rpc.EthProvider.Provider.Logs.{Filter, FilterChanges, block_range, log_filter, get_logs}
use kakarot_rpc.EthProvider.Provider.Logs.Found.{get_logs-Within}
use kakarot_rpc.EthProvider.Database.Ranges.{RangeQueries}
use kakarot_rpc.EthProvider.Provider.Fees.{
  FeeHistory, fee_history, start_of, history_of, extend_last,
}
use kakarot_rpc.EthProvider.Provider.Fees.Covered.{RatioOf, FeesOf, fee_history-Within}
use kakarot_rpc.Models.Block.{BlockNumberOrTag}
use kakarot_rpc.EthProvider.Provider.Blocks.{tag_into_block_number}
use kakarot_rpc.Tests.World.{
  StoredDoc, tx_doc, header_doc, test_header, test_database, test_environment,
}

-- The one document is of block 7.
abbrev log_text : Text
log_text = format_hex primitive_hex 7 64

abbrev not_after : Ordering → Bool
not_after Ordering.gt = false
not_after _ = true

abbrev if_both : StoredDoc → Ordering → Ordering → List StoredDoc
if_both d low high = if not_after low && not_after high then d ∷ [] else []

abbrev find_doc : StoredDoc → Option Document → List StoredDoc
find_doc d
      (some (field _ (document (field _ (string lo) (field _ (string hi) Document.empty))) _)) =
    if_both d (text_compare lo log_text) (text_compare log_text hi)
find_doc d _ = []

abbrev range_database : StoredDoc → MongoDatabase
range_database d = record test_database {
  find = λ collection filter project. ok (find_doc d filter);
}

both_not_after :
    (d : StoredDoc) (low high : Ordering)
    → All (λ (d : StoredDoc). (low ≢ Ordering.gt) × (high ≢ Ordering.gt)) (if_both d low high)
both_not_after d low high = ground arith

range_database-RangeQueries :
    (d : StoredDoc) (collection key : String) → RangeQueries (range_database d) collection key
range_database-RangeQueries d collection key = record {
  number_of = λ d. 7;
  number_of-lt = λ d. omega arith;
  in_range = λ lo hi project more raws h.
      subst
        (All (λ (d : StoredDoc).
          (text_compare lo log_text ≢ Ordering.gt) × (text_compare log_text hi ≢ Ordering.gt)))
        (ok_injective (if_both d (text_compare lo log_text) (text_compare log_text hi)) raws h)
        (both_not_after d (text_compare lo log_text) (text_compare log_text hi));
}

abbrev log_environment : Environment
log_environment = record test_environment { database = range_database (tx_doc 3 []) }

abbrev any_log : Filter
any_log = record { from_block = none; to_block = none; topics = []; address = none }

found_logs : get_logs log_environment 0 any_log ≡ ok (FilterChanges.logs (3 ∷ []))
unfolding get_logs block_number get_one deserialize_header block_range get log_filter format_hex
    deserialize_log
found_logs = refl

current_block : block_number log_environment 0 ≡ ok 7
unfolding block_number get_one deserialize_header
current_block = refl

get_logs-Within_example :
    (query : Document) × (raws : List StoredDoc) × (log_environment.database.find "logs"
        (some query)
        none
      ≡ ok raws)
    × Pairwise
        (StoredAt log_environment.database "log" log_environment.database.log_of_map)
        raws
        (3 ∷ [])
    × All (λ (d : StoredDoc). (0 ≤ 7) × (7 ≤ 7) × (7 ≤ 7)) raws
unfolding range_database-RangeQueries
get_logs-Within_example =
    get_logs-Within log_environment
      (range_database-RangeQueries (tx_doc 3 []) "logs" "log.blockNumber") 0 any_log 7 (3 ∷ [])
      current_block (omega arith) (omega arith) (omega arith) found_logs

abbrev header_environment : Environment
header_environment = record test_environment { database = range_database (header_doc test_header) }

abbrev test_history : FeeHistory (ℕ × ℕ)
test_history = record {
  base_fee_per_gas = 5 ∷ 5 ∷ [];
  gas_used_ratio = (21, 30) ∷ [];
  oldest_block = 4;
  reward = some [];
}

newest_known : tag_into_block_number header_environment 0 (BlockNumberOrTag.number 7) ≡ ok 7
unfolding tag_into_block_number
newest_known = refl

found_history : fee_history header_environment 0 4 (BlockNumberOrTag.number 7) ≡ ok test_history
unfolding fee_history tag_into_block_number get deserialize_header format_hex start_of history_of
    extend_last
found_history = refl

fee_history-Within_example :
    (query : Document) × (raws : List StoredDoc) × (headers : List Header)
    × (header_environment.database.find "headers" (some query) none ≡ ok raws)
    × Pairwise
        (StoredAt header_environment.database "header" header_environment.database.header_of_map)
        raws
        headers
    × Pairwise (RatioOf header_environment) headers test_history.gas_used_ratio
    × FeesOf header_environment headers test_history.base_fee_per_gas
    × (7 + 1 - 4 ≡ 4)
    × All (λ (d : StoredDoc). (4 ≤ 7) × (7 ≤ 7)) raws
unfolding range_database-RangeQueries
fee_history-Within_example =
    fee_history-Within header_environment
      (range_database-RangeQueries (header_doc test_header) "headers" "header.number") 0 4
      (BlockNumberOrTag.number 7) 7 test_history (λ e. absurd (omega (arith, e))) newest_known
      (omega arith) found_history
