-- ===== src/Bin/HiveChain/Read.antt =====
-- `BlockFileCodec` of src/bin/hive_chain.rs, and the stream of the blocks of a file.
use kakarot_rpc.Prelude.{
  ℕ, zero, suc, ◌+◌, ◌-◌, ◌<◌, String, Option, none, some, List, [], ◌∷◌, ◌++◌, flat_map, length,
  drop, length-append, ◌≡◌, refl, sym, ap, ◌∙◌, arith,
}
use kakarot_rpc.Prelude.Bytes.{Bytes}
use kakarot_rpc.Prelude.Result.{Result, ok, err, panic, ◌>>=◌}

-- `Block` of `reth`, with its `Decodable` instance: the block and what is left of the bytes.
module _ (Block : Type 0) (decode_block : Bytes → Result String (Block × Bytes)) where
  -- `src.advance(src.len() - buf_slice.len())`
  abbrev pub advanced : Bytes → Block × Bytes → Option (Block × Bytes)
  advanced src (body, buf_slice) = some (body, drop (length src - length buf_slice) src)

  -- `Decoder::decode`: the item with what is left, or no item.
  unfoldable pub decode : Bytes → Result String (Option (Block × Bytes))
  decode [] = ok none
  decode (x ∷ xs) = do decoded ← decode_block (x ∷ xs); ok (advanced (x ∷ xs) decoded)

  -- The items of the stream, in a number of turns; `none` if they run out. The buffer has the size
  -- of the file, so every item is decoded from all that is left.
  unfoldable pub read_blocks : ℕ → Bytes → Option (Result String (List Block))
  unfolding decode
  read_blocks zero src = none
  read_blocks (suc turns) src = elim (decode src) [
    | ok none ↦ some (ok [])
    | ok (some (body, rest)) ↦ elim (read_blocks turns rest) [
      | none ↦ none
      | some r ↦ some (do bodies ← r; ok (body ∷ bodies))
    ]
    | err e ↦ some (err e)
    | panic ↦ some panic
  ]

  -- Each item takes a byte at least, so one turn for each byte and one for the end are enough.
  unfoldable pub read_file : Bytes → Option (Result String (List Block))
  unfolding read_blocks
  read_file src = read_blocks (length src + 1) src

  read_blocks-next :
      (turns : ℕ) (src : Bytes) (b : Block) (rest : Bytes) (blocks : List Block)
      → decode src ≡ ok (some (b, rest))
      → read_blocks turns rest ≡ some (ok blocks)
      → read_blocks (suc turns) src ≡ some (ok (b ∷ blocks))
  unfolding read_blocks
  read_blocks-next turns src b rest blocks h k = rw (h, read_blocks) (rw (k, read_blocks))

  drop-append : (xs ys : Bytes) → drop (length (xs ++ ys) - length ys) (xs ++ ys) ≡ ys
  drop-append xs ys =
      let e : length (xs ++ ys) - length ys ≡ length xs = omega (arith, length-append xs ys) in
      ap (λ n. drop n (xs ++ ys)) e ∙ cut xs ys
    where
      cut : (us vs : Bytes) → drop (length us) (us ++ vs) ≡ vs
      cut [] vs = refl
      cut (u ∷ us) vs = cut us vs

  module _ (encode : Block → Bytes)
      (encoded : (b : Block) → (x : ℕ) × (xs : Bytes) × (encode b ≡ x ∷ xs))
      (decodes : (b : Block) (rest : Bytes) → decode_block (encode b ++ rest) ≡ ok (b, rest)) where
    decode-encode : (b : Block) (rest : Bytes) → decode (encode b ++ rest) ≡ ok (some (b, rest))
    decode-encode b rest =
        let (x, xs, e) = encoded b in
        ap (λ l. decode (l ++ rest)) e
        ∙ of x xs (ap (λ l. decode_block (l ++ rest)) (sym e) ∙ decodes b rest)
        ∙ ap (λ l. ok (some (b, drop (length (l ++ rest) - length rest) (l ++ rest)))) (sym e)
        ∙ ap (λ r. ok (some (b, r))) (drop-append (encode b) rest)
      where
        of :
            (x : ℕ) (xs : Bytes)
            → decode_block (x ∷ xs ++ rest) ≡ ok (b, rest)
            → decode (x ∷ xs ++ rest)
              ≡ ok (some (b, drop (length (x ∷ xs ++ rest) - length rest) (x ∷ xs ++ rest)))
        of x xs h = unfold decode in rw h

    read_blocks-encode :
        (blocks : List Block) (turns : ℕ)
        → length (flat_map encode blocks) < turns
        → read_blocks turns (flat_map encode blocks) ≡ some (ok blocks)
    unfolding read_blocks
    read_blocks-encode blocks zero h = absurd (omega arith)
    read_blocks-encode [] (suc turns) h = unfold decode in refl
    read_blocks-encode (b ∷ blocks) (suc turns) h =
        let (x, xs, e) = encoded b in
        let longer : length (encode b) ≡ suc (length xs) = ap length e in
        let shorter : length (flat_map encode blocks) < turns =
          omega (arith, length-append (encode b) (flat_map encode blocks), longer) in
        read_blocks-next turns (encode b ++ flat_map encode blocks) b (flat_map encode blocks)
          blocks (decode-encode b (flat_map encode blocks))
          (read_blocks-encode blocks turns shorter)

    -- If `reth` decodes what it encodes, to at least one byte, then a file of encoded blocks is
    -- read to the end, as those blocks in their order.
    pub read_file-encode :
        (blocks : List Block) → read_file (flat_map encode blocks) ≡ some (ok blocks)
    unfolding read_file
    read_file-encode blocks =
        read_blocks-encode blocks (length (flat_map encode blocks) + 1) (omega arith)
