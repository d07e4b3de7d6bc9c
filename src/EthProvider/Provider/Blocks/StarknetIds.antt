-- ===== src/EthProvider/Provider/Blocks/StarknetIds.antt =====
-- Which Starknet block an Ethereum block identifier stands for.
use kakarot_rpc.Prelude.{
  ℕ, ◌≡◌, ◌≢◌, ◌↔◌, refl, ap, ◌∙◌, true, false, Option, none, some, [], ◌∷◌, Bool-cases,
  if◌then◌else◌, inl, inr, arith,
}
use kakarot_rpc.Prelude.Bytes.{Bytes}
use kakarot_rpc.Prelude.Result.{ok, err, ok_or, ◌>>=◌}
use kakarot_rpc.Models.Block.{BlockNumberOrTag, BlockId, BlockTag, StarknetBlockId}
use kakarot_rpc.EthProvider.Error.{value_not_found}
use kakarot_rpc.EthProvider.Database.{StoredHeader, EthProviderResult}
use kakarot_rpc.EthProvider.Provider.{Environment}
use kakarot_rpc.EthProvider.Provider.Blocks.{
  BlockHashOrNumber, bytes_eq, zero_b256, header, to_starknet_block_id,
}

-- `==` of byte strings decides equality.
pub bytes_eq_iff : (xs ys : Bytes) → (bytes_eq xs ys ≡ true) ↔ (xs ≡ ys)
bytes_eq_iff [] [] = ground arith
bytes_eq_iff [] (y ∷ ys) = ground arith
bytes_eq_iff (x ∷ xs) [] = ground arith
bytes_eq_iff (x ∷ xs) (y ∷ ys) = ground (arith, bytes_eq_iff xs ys)

module _ (E : Environment) (n : ℕ) where
  abbrev pub by_number : Option BlockId
  by_number = some (BlockId.number (BlockNumberOrTag.number n))

  -- What the number stands for, by its stored header.
  pub data StandsFor
      : Option StoredHeader → EthProviderResult (StarknetBlockId E.field) → Type 0 where
    no_header : StandsFor none (err (value_not_found "Block"))
    no_hash :
        (h : StoredHeader)
        → h.header.hash ≡ none
        → StandsFor (some h) (err (value_not_found "Block"))
    pending_block :
        (h : StoredHeader)
        → h.header.hash ≡ some zero_b256
        → StandsFor (some h) (ok (StarknetBlockId.tag BlockTag.pending))
    stored_block :
        (h : StoredHeader) (hash : Bytes)
        → h.header.hash ≡ some hash
        → hash ≢ zero_b256
        → StandsFor (some h) (ok (StarknetBlockId.number n))

  of_hash :
      (h : StoredHeader) (hash : Bytes)
      → h.header.hash ≡ some hash
      → StandsFor (some h) (
          if bytes_eq hash zero_b256
          then ok (StarknetBlockId.tag BlockTag.pending)
          else ok (StarknetBlockId.number n))
  of_hash h hash e = elim (Bool-cases (bytes_eq hash zero_b256)) [
    | inl t ↦ rw t (StandsFor.pending_block h (e ∙ ap some ((bytes_eq_iff hash zero_b256).0 t)))
    | inr f ↦ rw f (StandsFor.stored_block h hash e (λ k. different k f))
  ]
    where
      different : hash ≡ zero_b256 → bytes_eq hash zero_b256 ≢ false
      different k f = ground (arith, bytes_eq_iff hash zero_b256)

  of_header :
      (h : StoredHeader) (hash : Option Bytes)
      → h.header.hash ≡ hash
      → StandsFor (some h) (
          ok_or (value_not_found "Block") hash >>= λ block_hash.
          if bytes_eq block_hash zero_b256
          then ok (StarknetBlockId.tag BlockTag.pending)
          else ok (StarknetBlockId.number n))
  of_header h none e = StandsFor.no_hash h e
  of_header h (some hash) e = of_hash h hash e

  -- A number stands for the pending block of Starknet if its stored header has hash zero, and for
  -- the block of that number if it has another hash. If there is no header, or it has no hash, it
  -- is refused.
  pub to_starknet_block_id-number :
      (found : Option StoredHeader)
      → header E (BlockHashOrNumber.number n) ≡ ok found
      → StandsFor found (to_starknet_block_id E by_number)
  unfolding to_starknet_block_id
  to_starknet_block_id-number none e = rw e StandsFor.no_header
  to_starknet_block_id-number (some h) e = rw e (of_header h h.header.hash refl)
