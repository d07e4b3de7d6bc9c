-- ===== src/Bin/HiveChain/Waits.antt =====
-- The waiting of src/bin/hive_chain.rs for a block.
use kakarot_rpc.Prelude.{ℕ, zero, suc, ◌<◌, ◌≤◌, ◌≡◌, lt→ltb, le→not-ltb, arith}
use kakarot_rpc.Prelude.Result.{ok}
use kakarot_rpc.Felt.{FieldElement}
use kakarot_rpc.EthProvider.Starknet.{StarknetProvider, Deployment, EthPrimitives}
use kakarot_rpc.Bin.HiveChain.{Outside, wait_for}

module _ (F : FieldElement) (N : StarknetProvider F) (K : Deployment F) (X : EthPrimitives)
    (O : Outside F N K X) where
  -- The node after a number of sleeps.
  abbrev pub after : ℕ → N.State → N.State
  after zero s = s
  after (suc k) s = after k (O.slept s)

  -- The node has not come to the block.
  abbrev pub Before : ℕ → N.State → Type 0
  Before block_number s = (n : ℕ) × (N.block_number s ≡ ok n) × (n < block_number)

  -- The waiting for a block that the node comes to, after some sleeps and not before, ends right
  -- then, in any number of turns above that of the sleeps.
  pub wait_for-after :
      (turns block_number k : ℕ) (s : N.State) (m : ℕ)
      → k < turns
      → ((j : ℕ) → j < k → Before block_number (after j s))
      → N.block_number (after k s) ≡ ok m
      → block_number ≤ m
      → wait_for F N K X O turns block_number s ≡ ok (after k s)
  unfolding wait_for
  wait_for-after zero block_number k s m h before at_k there = absurd (omega arith)
  wait_for-after (suc turns) block_number zero s m h before at_k there =
      rw (at_k, le→not-ltb m block_number there)
  wait_for-after (suc turns) block_number (suc k) s m h before at_k there =
      let (n, at_n, less) = before 0 (omega arith) in
      let rest =
        wait_for-after turns block_number k (O.slept s) m (omega arith)
          (λ j lt. before (suc j) (omega arith)) at_k there in
      rw (at_n, lt→ltb n block_number less) rest
