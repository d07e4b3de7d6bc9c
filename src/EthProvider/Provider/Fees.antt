-- ===== src/EthProvider/Provider/Fees.antt =====
-- `fee_history`.
pub mod History
pub mod Covered
use kakarot_rpc.Prelude.{
  ℕ, ◌+◌, ◌-◌, ◌%◌, ◌^◌, min, Option, none, some, unwrap_or, List, [], ◌∷◌, ◌++◌, map, length, drop,
  ltb, ◌==◌, if◌then◌else◌,
}
use kakarot_rpc.Prelude.Result.{Result, ok, err, panic, ◌>>=◌}
use kakarot_rpc.Models.Block.{BlockNumberOrTag}
use kakarot_rpc.EthProvider.Error.{EthProviderError}
use kakarot_rpc.EthProvider.Document.{Document, empty, field, document, string, doc}
use kakarot_rpc.EthProvider.Utils.{primitive_hex, format_hex}
use kakarot_rpc.EthProvider.Database.{EthProviderResult, StoredHeader, deserialize_header, get}
use kakarot_rpc.EthProvider.Provider.{Environment}
use kakarot_rpc.EthProvider.Provider.Blocks.{State, tag_into_block_number}

-- `FeeHistory`, the fields that the code sets; its default is empty.
pub record FeeHistory (Float : Type 0) : Type 0 where
  pub base_fee_per_gas : List ℕ
  pub gas_used_ratio : List Float
  pub oldest_block : ℕ
  pub reward : Option (List (List Float))

abbrev pub u64_max : ℕ
u64_max = 2 ^ 64 - 1

-- The first block of a history: `end_block.saturating_add(1).saturating_sub(block_count)`.
unfoldable pub start_of : ℕ → ℕ → ℕ
start_of end_block block_count = min (end_block + 1) u64_max - block_count

-- `fees.extend_from_within((fees.len() - 1)..)`: the last element once more. Of an empty vector
-- the subtraction overflows.
unfoldable pub extend_last {ℓ κ} : {Err : Type ℓ} {A : Type κ} → List A → Result Err (List A)
extend_last [] = panic
extend_last (x ∷ xs) = ok ((x ∷ xs) ++ drop (length xs) (x ∷ xs))

module _ (E : Environment) where
  open E use {database as D, primitives as X}

  -- `as_limbs()[0] as f64`
  abbrev limb_as_f64 : ℕ → X.Float
  limb_as_f64 v = X.as_f64 (v % 2 ^ 64)

  abbrev gas_ratio : StoredHeader → X.Float
  gas_ratio h =
      X.div_f64 (limb_as_f64 h.header.gas_used)
        (if h.header.gas_limit == 0 then X.as_f64 1 else limb_as_f64 h.header.gas_limit)

  abbrev base_fee : StoredHeader → ℕ
  base_fee h = unwrap_or h.header.base_fee_per_gas 0

  abbrev pub history_filter : ℕ → ℕ → Document
  history_filter start_block end_block = doc "header.number" (
      document (
        field "$gte" (string (format_hex primitive_hex start_block 64))
          (field "$lte" (string (format_hex primitive_hex end_block 64)) empty)))

  unfoldable pub history_of : ℕ → List StoredHeader → EthProviderResult (FeeHistory X.Float)
  history_of start_block [] = err (EthProviderError.value_not_found "Block")
  history_of start_block (b ∷ bs) = do
    fees ← extend_last (map base_fee (b ∷ bs))
    ok (record {
      base_fee_per_gas = fees;
      gas_used_ratio = map gas_ratio (b ∷ bs);
      oldest_block = start_block;
      reward = some [];
    })

  abbrev empty_history : FeeHistory X.Float
  empty_history = record {
    base_fee_per_gas = [];
    gas_used_ratio = [];
    oldest_block = 0;
    reward = none;
  }

  -- The reward percentiles are not read.
  unfoldable pub fee_history :
      State E → ℕ → BlockNumberOrTag → EthProviderResult (FeeHistory X.Float)
  fee_history s block_count newest_block = if block_count == 0 then ok empty_history else do
    end_block ← tag_into_block_number E s newest_block
    blocks ←
        get D (deserialize_header D) "headers"
          (some (history_filter (start_of end_block block_count) end_block)) none
    history_of (start_of end_block block_count) blocks
