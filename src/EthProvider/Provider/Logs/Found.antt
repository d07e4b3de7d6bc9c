-- ===== src/EthProvider/Provider/Logs/Found.antt =====
-- The documents behind a reply of `get_logs`, by their block numbers.
use kakarot_rpc.Prelude.{
  ℕ, ◌≤◌, ◌<◌, ◌^◌, ◌≡◌, refl, ap, sym, subst, ◌∙◌, Option, none, some, unwrap_or, List, map, arith,
  lt→ltb, All,
}
use kakarot_rpc.Prelude.Bytes.{Bytes}
use kakarot_rpc.Prelude.Result.{ok}
use kakarot_rpc.EthProvider.Document.{Document, field, document, insert}
use kakarot_rpc.EthProvider.Utils.{primitive_hex, format_hex}
use kakarot_rpc.EthProvider.Database.{deserialize_log, get}
use kakarot_rpc.EthProvider.Database.Ranges.{RangeQueries, between, find-Within, All-map}
use kakarot_rpc.EthProvider.Database.Reads.{
  >>=-eq-ok, Pairwise, Pairwise-map, get-Pairwise, StoredAt, deserialize_log-StoredAt,
}
use kakarot_rpc.EthProvider.Provider.{Environment}
use kakarot_rpc.EthProvider.Provider.Blocks.{State, block_number}
use kakarot_rpc.EthProvider.Provider.Logs.{
  Filter, FilterChanges, ValueOrArray, block_range, flatten_topics, log_filter, logs_in, log_of,
  get_logs,
}
use kakarot_rpc.EthProvider.Provider.Logs.Range.{Covers, block_range_exact}

module _ (E : Environment) (M : RangeQueries E.database "logs" "log.blockNumber") where
  open E use {database as D}
  open M use {number_of}

  log_filter_shape :
      (from to : ℕ) (topics : List Bytes) (address : Option (ValueOrArray Bytes))
      → (more : Document) × (log_filter E from to topics address
          ≡ field "log.blockNumber"
              (document
                (between (format_hex primitive_hex from 64) (format_hex primitive_hex to 64)))
              more)
  unfolding log_filter insert
  log_filter_shape from to topics none = (_, refl)
  log_filter_shape from to topics (some a) = (_, refl)

  abbrev RangeFits : Option (ℕ × ℕ) → Type 0
  RangeFits none = Unit
  RangeFits (some (from, to)) = (from < 2 ^ 64) × (to < 2 ^ 64)

  block_range-RangeFits :
      (current : ℕ) (from_block to_block : Option ℕ)
      → current < 2 ^ 64
      → unwrap_or from_block 0 < 2 ^ 64
      → unwrap_or to_block current < 2 ^ 64
      → RangeFits (block_range current from_block to_block)
  unfolding block_range
  block_range-RangeFits current from_block to_block hc hf ht = ground arith

  logs_in-Covers :
      (filter : Filter) (range : Option (ℕ × ℕ)) (ls : List D.Log)
      → RangeFits range
      → logs_in E filter range ≡ ok (FilterChanges.logs ls)
      → (query : Document) × (raws : List D.Raw) × (D.find "logs" (some query) none ≡ ok raws)
        × Pairwise (StoredAt D "log" D.log_of_map) raws ls
        × All (λ raw. Covers range (number_of raw)) raws
  logs_in-Covers filter none ls hr h = cc
  logs_in-Covers filter (some (from, to)) ls hr h =
      let query = log_filter E from to (flatten_topics filter.topics) filter.address in
      let (found, e, k) =
        >>=-eq-ok (get D (deserialize_log D) "logs" (some query) none) _ (FilterChanges.logs ls)
          h in
      let (raws, at, same) = get-Pairwise D (deserialize_log D) "logs" (some query) none found e in
      let (more, shape) = log_filter_shape from to (flatten_topics filter.topics) filter.address in
      let replied : map (log_of E) found ≡ ls = cc in
      (
        query,
        raws,
        at,
        subst (Pairwise (StoredAt D "log" D.log_of_map) raws) replied (
            Pairwise-map _ (StoredAt D "log" D.log_of_map) (log_of E)
              (λ raw l. deserialize_log-StoredAt D raw l) raws found same),
        find-Within D "logs" "log.blockNumber" M from to none more raws hr.0 hr.1
            (ap (λ q. D.find "logs" (some q) none) (sym shape) ∙ at),
      )

  -- If stored logs have their block number as `format_hex` writes it and the database answers range
  -- queries character by character, then the logs of a reply are those of the documents that one
  -- query found, one for each in their order, and the block number of each of these documents is in
  -- the range of the filter and not after the current block.
  pub get_logs-Within :
      (s : State E) (filter : Filter) (current : ℕ) (ls : List D.Log)
      → block_number E s ≡ ok current
      → current < 2 ^ 64
      → unwrap_or filter.from_block 0 < 2 ^ 64
      → unwrap_or filter.to_block current < 2 ^ 64
      → get_logs E s filter ≡ ok (FilterChanges.logs ls)
      → (query : Document) × (raws : List D.Raw) × (D.find "logs" (some query) none ≡ ok raws)
        × Pairwise (StoredAt D "log" D.log_of_map) raws ls
        × All
            (λ raw.
              (unwrap_or filter.from_block 0 ≤ number_of raw)
              × (number_of raw ≤ unwrap_or filter.to_block current)
              × (number_of raw ≤ current))
            raws
  unfolding get_logs
  get_logs-Within s filter current ls known hc hf ht h =
      let range = block_range current filter.from_block filter.to_block in
      let h' : logs_in E filter range ≡ ok (FilterChanges.logs ls) =
        rw (known, lt→ltb current (2 ^ 64) hc) at h in
      let (query, raws, found, same, covered) =
        logs_in-Covers filter range ls
          (block_range-RangeFits current filter.from_block filter.to_block hc hf ht) h' in
      (
        query,
        raws,
        found,
        same,
        All-map
            (λ raw p.
              (block_range_exact current filter.from_block filter.to_block (number_of raw)).0.0 p)
            raws covered,
      )
