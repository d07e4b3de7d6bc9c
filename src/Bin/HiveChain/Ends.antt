-- ===== src/Bin/HiveChain/Ends.antt =====
-- The reading of a file of blocks (src/bin/hive_chain.rs) comes to an end.
use kakarot_rpc.Prelude.{
  ℕ, zero, suc, ◌+◌, ◌-◌, ◌<◌, String, Option, none, some, List, [], ◌∷◌, length, drop, ◌≡◌, refl,
  arith,
}
use kakarot_rpc.Prelude.Bytes.{Bytes}
use kakarot_rpc.Prelude.Result.{Result, ok, err, panic, ◌>>=◌}
use kakarot_rpc.Bin.HiveChain.Read.{advanced, decode, read_blocks, read_file}

length-drop : (n : ℕ) (xs : Bytes) → length (drop n xs) ≡ length xs - n
length-drop zero xs = omega arith
length-drop (suc n) [] = omega arith
length-drop (suc n) (x ∷ xs) = omega (arith, length-drop n xs)

module _ (Block : Type 0) (decode_block : Bytes → Result String (Block × Bytes))
    (consumes : (src : Bytes) (b : Block) (rest : Bytes)
      → decode_block src ≡ ok (b, rest)
      → length rest < length src) where
  -- What a step of the stream leaves is shorter than what it was given.
  Shorter : Bytes → Result String (Option (Block × Bytes)) → Type 0
  Shorter src (ok (some (b, rest))) = length rest < length src
  Shorter src (ok none) = Unit
  Shorter src (err e) = Unit
  Shorter src panic = Unit

  decode-Shorter : (src : Bytes) → Shorter src (decode Block decode_block src)
  unfolding Shorter decode
  decode-Shorter [] = tt
  decode-Shorter (x ∷ xs) = of (decode_block (x ∷ xs)) refl
    where
      of :
          (d : Result String (Block × Bytes))
          → decode_block (x ∷ xs) ≡ d
          → Shorter (x ∷ xs) (d >>= λ decoded. ok (advanced Block decode_block (x ∷ xs) decoded))
      of (ok (b, rest)) h =
          let less = consumes (x ∷ xs) b rest h in
          let left = length-drop (length (x ∷ xs) - length rest) (x ∷ xs) in
          omega (arith, left, less)
      of (err e) h = tt
      of panic h = tt

  abbrev Ends : ℕ → Bytes → Type 0
  Ends turns src =
      (r : Result String (List Block)) × (read_blocks Block decode_block turns src ≡ some r)

  read_blocks-Ends : (turns : ℕ) (src : Bytes) → length src < turns → Ends turns src
  unfolding read_blocks Shorter
  read_blocks-Ends zero src h = absurd (omega arith)
  read_blocks-Ends (suc turns) src h =
      of (decode Block decode_block src) refl (decode-Shorter src)
        (λ rest less. read_blocks-Ends turns rest less)
    where
      of :
          (d : Result String (Option (Block × Bytes)))
          → decode Block decode_block src ≡ d
          → Shorter src d
          → ((rest : Bytes) → length rest < turns → Ends turns rest)
          → Ends (suc turns) src
      of (ok none) e s ends = (ok [], rw (e, read_blocks))
      of (ok (some (b, rest))) e s ends =
          let (r, k) = ends rest (omega arith) in
          ((do bodies ← r; ok (b ∷ bodies)), rw (e, read_blocks) (rw (k, read_blocks)))
      of (err x) e s ends = (err x, rw (e, read_blocks))
      of panic e s ends = (panic, rw (e, read_blocks))

  -- If `reth` takes at least one byte for a block, then the reading of any file ends, with blocks
  -- or with a failure.
  pub read_file_ends :
      (src : Bytes) → (r : Result String (List Block)) × (read_file Block decode_block src ≡ some r)
  unfolding read_file
  read_file_ends src = read_blocks-Ends (length src + 1) src (omega arith)
