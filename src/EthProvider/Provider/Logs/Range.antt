-- ===== src/EthProvider/Provider/Logs/Range.antt =====
-- Which blocks a query for logs covers, and what the topics of a filter mean to it.
use kakarot_rpc.Prelude.{
  ℕ, ◌≤◌, ◌<◌, ◌⊎◌, ◌≡◌, refl, ap, fun_ext, ◌++◌, ◌↔◌, Option, none, some, unwrap_or, List, [], ◌∷◌,
  arith,
}
use kakarot_rpc.Prelude.Bytes.{Bytes}
use kakarot_rpc.Models.Errors.{from_uint_error}
use kakarot_rpc.Prelude.Result.{◌>>=◌}
use kakarot_rpc.EthProvider.Provider.{Environment, or_conversion_error, try_u64}
use kakarot_rpc.EthProvider.Provider.Blocks.{State, block_number}
use kakarot_rpc.EthProvider.Provider.Logs.{
  Filter, ValueOrArray, block_range, flatten_topics, values, logs_in, get_logs,
}

abbrev pub Covers : Option (ℕ × ℕ) → ℕ → Type 0
Covers none x = ⊥
Covers (some (from, to)) x = (from ≤ x) × (x ≤ to)

-- A query for logs covers exactly the blocks from the first to the last of the filter, by default
-- from 0 to the current block, that are not after the current block. There is no query exactly when
-- the first block is after the current block or after the last one.
pub block_range_exact :
    (current_block : ℕ) (from_block to_block : Option ℕ) (x : ℕ)
    → (Covers (block_range current_block from_block to_block) x ↔ (
        (unwrap_or from_block 0 ≤ x)
        × (x ≤ unwrap_or to_block current_block)
        × (x ≤ current_block)))
      × ((block_range current_block from_block to_block ≡ none) ↔ (
          (current_block < unwrap_or from_block 0)
          ⊎ (unwrap_or to_block current_block < unwrap_or from_block 0)))
unfolding block_range
block_range_exact c from_block to_block x = (ground arith, ground arith)

flatten_topics-wildcard :
    (before after : List (Option (ValueOrArray Bytes)))
    → flatten_topics (before ++ none ∷ after) ≡ flatten_topics (before ++ after)
unfolding flatten_topics
flatten_topics-wildcard [] after = refl
flatten_topics-wildcard (none ∷ before) after = flatten_topics-wildcard before after
flatten_topics-wildcard (some t ∷ before) after =
    ap (λ r. values t ++ r) (flatten_topics-wildcard before after)

module _ (E : Environment) (s : State E) (filter : Filter) where
  logs_in-wildcard :
      (before after : List (Option (ValueOrArray Bytes))) (range : Option (ℕ × ℕ))
      → logs_in E (record filter { topics = before ++ none ∷ after }) range
        ≡ logs_in E (record filter { topics = before ++ after }) range
  logs_in-wildcard before after none = refl
  logs_in-wildcard before after (some (from, to)) = rw (flatten_topics-wildcard before after)

  -- A wildcard among the topics of a filter changes nothing, so the topics behind it are held
  -- against the positions before their own.
  pub get_logs-wildcard :
      (before after : List (Option (ValueOrArray Bytes)))
      → get_logs E s (record filter { topics = before ++ none ∷ after })
        ≡ get_logs E s (record filter { topics = before ++ after })
  unfolding get_logs
  get_logs-wildcard before after =
      ap (λ k. block_number E s >>= k)
        (fun_ext λ number.
          ap
            (λ k.
              or_conversion_error (try_u64 (from_uint_error E.primitives.from_uint_message) number)
              >>= k)
            (fun_ext λ current_block.
              logs_in-wildcard before after
                (block_range current_block filter.from_block filter.to_block)))
