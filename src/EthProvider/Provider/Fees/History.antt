-- ===== src/EthProvider/Provider/Fees/History.antt =====
-- The shape of a fee history, and the blocks that it covers.
use kakarot_rpc.Prelude.{
  ℕ, suc, ◌+◌, ◌-◌, ◌<◌, min, ◌≡◌, refl, List, [], ◌∷◌, ◌++◌, map, length, length-append, drop,
  some, arith,
}
use mathlib.Core.List.{map-append, append_assoc}
use kakarot_rpc.Prelude.Result.{ok}
use kakarot_rpc.EthProvider.Database.{StoredHeader}
use kakarot_rpc.EthProvider.Provider.{Environment}
use kakarot_rpc.EthProvider.Provider.Fees.{
  start_of, u64_max, extend_last, history_of, base_fee, gas_ratio,
}

-- For an end block below the greatest `u64`, the range from the start to the end block has
-- `block_count` blocks, or all from block 0 on if there are fewer; for a count of 1 the start is
-- the end block itself.
pub start_of_count :
    (end_block block_count : ℕ)
    → end_block < u64_max
    → end_block + 1 - start_of end_block block_count ≡ min block_count (end_block + 1)
unfolding start_of
start_of_count end_block block_count h = omega arith

drop-last {ℓ} : {A : Type ℓ} (xs : List A) (x : A) → drop (length xs) (xs ++ x ∷ []) ≡ x ∷ []
drop-last [] x = refl
drop-last (_ ∷ xs) x = drop-last xs x

pub extend_last-snoc {ℓ κ} :
    {Err : Type ℓ} {A : Type κ} (xs : List A) (x : A)
    → extend_last {Err = Err} (xs ++ x ∷ []) ≡ ok ((xs ++ x ∷ []) ++ x ∷ [])
unfolding extend_last
extend_last-snoc [] x = refl
extend_last-snoc (y ∷ xs) x =
    let e : length (xs ++ x ∷ []) ≡ suc (length xs) = omega (arith, length-append xs (x ∷ [])) in
    rw (e, drop-last xs x)

module _ (E : Environment) where
  -- Of stored blocks, at least one, a fee history has the base fee of each, the last one twice, and
  -- a gas ratio for each, and it starts at the start block. No subtraction overflows.
  pub history_of_lem :
      (start_block : ℕ) (bs : List StoredHeader) (b : StoredHeader)
      → history_of E start_block (bs ++ b ∷ [])
        ≡ ok (record {
          base_fee_per_gas = map (base_fee E) bs ++ base_fee E b ∷ base_fee E b ∷ [];
          gas_used_ratio = map (gas_ratio E) (bs ++ b ∷ []);
          oldest_block = start_block;
          reward = some [];
        })
  unfolding history_of
  history_of_lem start_block [] b = rw (extend_last-snoc [] (base_fee E b))
  history_of_lem start_block (c ∷ bs) b = rw (
    map-append (base_fee E) bs (b ∷ []),
    extend_last-snoc (base_fee E c ∷ map (base_fee E) bs) (base_fee E b),
    append_assoc,
  )
