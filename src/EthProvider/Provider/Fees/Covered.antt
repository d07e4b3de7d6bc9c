-- ===== src/EthProvider/Provider/Fees/Covered.antt =====
-- The documents behind a fee history, and its shape, over range queries.
use kakarot_rpc.Prelude.{
  ℕ, unwrap_or, true, ℕ_discrete, ◌%◌, ◌+◌, ◌-◌, ◌≤◌, ◌<◌, ◌^◌, ◌≡◌, ◌≢◌, refl, min, none, some,
  List, [], ◌∷◌, ◌++◌, map, length, drop, subst, arith, All, ◌==◌, false,
}
use kakarot_rpc.Prelude.Result.{ok, ◌>>=◌}
use kakarot_rpc.Models.Block.{BlockNumberOrTag}
use kakarot_rpc.EthProvider.Document.{Document, empty}
use kakarot_rpc.EthProvider.Database.{Header, StoredHeader, deserialize_header, get}
use kakarot_rpc.EthProvider.Database.Ranges.{RangeQueries, find-Within}
use kakarot_rpc.EthProvider.Database.Reads.{
  >>=-eq-ok, ok_injective, Pairwise, Pairwise-map, get-Pairwise, StoredAt,
  deserialize_header-StoredAt,
}
use kakarot_rpc.EthProvider.Provider.{Environment}
use kakarot_rpc.EthProvider.Provider.Blocks.{State, tag_into_block_number}
use kakarot_rpc.EthProvider.Provider.Fees.History.{start_of_count}
use kakarot_rpc.EthProvider.Provider.Fees.{
  FeeHistory, u64_max, start_of, history_of, history_filter, fee_history, extend_last, base_fee,
  gas_ratio,
}

module _ (E : Environment) where
  open E use {primitives as X}

  start_of-le : (end_block block_count : ℕ) → start_of end_block block_count ≤ u64_max
  unfolding start_of
  start_of-le end_block block_count = omega arith

  -- The ratio of a header: its gas over its limit, or over 1 without one, by their low 64 bits.
  pub data RatioOf (h : Header) : X.Float → Type 0 where
    no_limit : h.gas_limit ≡ 0 → RatioOf h (X.div_f64 (X.as_f64 (h.gas_used % 2 ^ 64)) (X.as_f64 1))
    limited :
        h.gas_limit ≢ 0
        → RatioOf h (X.div_f64 (X.as_f64 (h.gas_used % 2 ^ 64)) (X.as_f64 (h.gas_limit % 2 ^ 64)))

  -- The base fees of headers, and that of the last one twice.
  abbrev pub FeesOf : List Header → List ℕ → Type 0
  FeesOf [] fees = ⊥
  FeesOf (h ∷ []) fees = fees ≡ unwrap_or h.base_fee_per_gas 0 ∷ unwrap_or h.base_fee_per_gas 0 ∷ []
  FeesOf (h ∷ k ∷ hs) [] = ⊥
  FeesOf (h ∷ k ∷ hs) (fee ∷ fees) = (fee ≡ unwrap_or h.base_fee_per_gas 0) × FeesOf (k ∷ hs) fees

  abbrev header_of : StoredHeader → Header
  header_of stored = stored.header

  gas_ratio-RatioOf : (b : StoredHeader) → RatioOf b.header (gas_ratio E b)
  gas_ratio-RatioOf b = elim (ℕ_discrete b.header.gas_limit 0) [
    | yes e ↦
        let t : (b.header.gas_limit == 0) ≡ true = ground arith in
        rw (gas_ratio, t) (RatioOf.no_limit e)
    | no n ↦
        let f : (b.header.gas_limit == 0) ≡ false = ground arith in
        rw (gas_ratio, f) (RatioOf.limited n)
  ]

  ratios-RatioOf :
      (bs : List StoredHeader) → Pairwise RatioOf (map header_of bs) (map (gas_ratio E) bs)
  ratios-RatioOf [] = tt
  ratios-RatioOf (b ∷ bs) = (gas_ratio-RatioOf b, ratios-RatioOf bs)

  fees-FeesOf :
      (b : StoredHeader) (bs : List StoredHeader)
      → FeesOf (map header_of (b ∷ bs)) (
          (base_fee E b ∷ map (base_fee E) bs)
          ++ drop (length (map (base_fee E) bs)) (base_fee E b ∷ map (base_fee E) bs))
  fees-FeesOf b [] = refl
  fees-FeesOf b (c ∷ bs) = (refl, fees-FeesOf c bs)

  history_of-shape :
      (start_block : ℕ) (bs : List StoredHeader) (h : FeeHistory X.Float)
      → history_of E start_block bs ≡ ok h
      → (h.oldest_block ≡ start_block)
        × Pairwise RatioOf (map header_of bs) h.gas_used_ratio
        × FeesOf (map header_of bs) h.base_fee_per_gas
  unfolding history_of extend_last
  history_of-shape start_block [] h e = cc
  history_of-shape start_block (b ∷ bs) h e =
      let fees = base_fee E b ∷ map (base_fee E) bs in
      let last = drop (length (map (base_fee E) bs)) fees in
      subst
        (λ (h : FeeHistory X.Float).
          (h.oldest_block ≡ start_block)
          × Pairwise RatioOf (map header_of (b ∷ bs)) h.gas_used_ratio
          × FeesOf (map header_of (b ∷ bs)) h.base_fee_per_gas)
        (ok_injective
          (record {
            base_fee_per_gas = fees ++ last;
            gas_used_ratio = map (gas_ratio E) (b ∷ bs);
            oldest_block = start_block;
            reward = some [];
          })
          h e)
        (refl, ratios-RatioOf (b ∷ bs), fees-FeesOf b bs)

module _ (E : Environment) (M : RangeQueries E.database "headers" "header.number") where
  open E use {database as D, primitives as X}
  open M use {number_of}

  -- If stored headers have their number as `format_hex` writes it and the database answers range
  -- queries character by character, then a fee history of at least one block is that of the headers
  -- that one query found, in their order: it has the gas ratio and the base fee of each, and the
  -- last base fee once more. The range from its oldest block to the end block has as many blocks as
  -- were asked for, or all from block 0 on if there are fewer, and every header that was found lies
  -- in it.
  pub fee_history-Within :
      (s : State E) (block_count : ℕ) (newest : BlockNumberOrTag) (end_block : ℕ)
      (h : FeeHistory X.Float)
      → block_count ≢ 0
      → tag_into_block_number E s newest ≡ ok end_block
      → end_block < u64_max
      → fee_history E s block_count newest ≡ ok h
      → (query : Document) × (raws : List D.Raw) × (headers : List Header) × (D.find "headers"
            (some query)
            none
          ≡ ok raws)
        × Pairwise (StoredAt D "header" D.header_of_map) raws headers
        × Pairwise (RatioOf E) headers h.gas_used_ratio
        × FeesOf E headers h.base_fee_per_gas
        × (end_block + 1 - h.oldest_block ≡ min block_count (end_block + 1))
        × All (λ raw. (h.oldest_block ≤ number_of raw) × (number_of raw ≤ end_block)) raws
  unfolding fee_history
  fee_history-Within s block_count newest end_block h nonzero known below e =
      let start = start_of end_block block_count in
      let counted : (block_count == 0) ≡ false = ground arith in
      let e' : (get D (deserialize_header D) "headers" (some (history_filter E start end_block))
              none
            >>= history_of E start)
          ≡ ok h =
        rw (counted, known) at e in
      let (found, got, k) =
        >>=-eq-ok
          (get D (deserialize_header D) "headers" (some (history_filter E start end_block)) none)
          (history_of E start) h e' in
      let (raws, at, same) =
        get-Pairwise D (deserialize_header D) "headers" (some (history_filter E start end_block))
          none found got in
      let (oldest, ratios, fees) = history_of-shape E start found h k in
      let start_fits : start < 2 ^ 64 = omega (arith, start_of-le E end_block block_count) in
      (
        history_filter E start end_block,
        raws,
        map (header_of E) found,
        at,
        Pairwise-map _ (StoredAt D "header" D.header_of_map) (header_of E)
            (λ raw b. deserialize_header-StoredAt D raw b) raws found same,
        ratios,
        fees,
        rw oldest (start_of_count end_block block_count below),
        rw oldest (
            find-Within D "headers" "header.number" M start end_block none empty raws start_fits
              (omega arith) at),
      )
