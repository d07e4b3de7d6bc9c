-- ===== src/TestUtils/Genesis/Seed.antt =====
-- `parse_seed` (src/test_utils/katana/genesis.rs): 32 bytes of the bytes of a text.
use kakarot_rpc.Prelude.{
  ℕ, zero, suc, ◌≤◌, ◌≡◌, refl, ap, arith, [], ◌∷◌, ◌++◌, length, replicate, take, leb, Bool-cases,
  inl, inr, sym, if◌then◌else◌,
}
use kakarot_rpc.Prelude.Bytes.{Bytes}

-- `actual_seed[i] = *b`, for each byte; the seeds that come here are shorter than the array.
unfoldable pub overwrite : Bytes → Bytes → Bytes
overwrite [] actual_seed = actual_seed
overwrite (b ∷ bs) [] = []
overwrite (b ∷ bs) (_ ∷ rest) = b ∷ overwrite bs rest

unfoldable pub parse_seed : Bytes → Bytes
parse_seed seed = if leb 32 (length seed) then take 32 seed else overwrite seed (replicate 32 0)

take-replicate : (n m : ℕ) → n ≤ m → take {A = ℕ} n (replicate m 0) ≡ replicate n 0
take-replicate zero m h = refl
take-replicate (suc n) zero h = absurd (omega arith)
take-replicate (suc n) (suc m) h = ap (λ r. 0 ∷ r) (take-replicate n m (omega arith))

overwrite-padded :
    (n m : ℕ) (seed : Bytes)
    → n ≤ m
    → overwrite seed (replicate n 0) ≡ take n (seed ++ replicate m 0)
unfolding overwrite
overwrite-padded n m [] h = sym (take-replicate n m h)
overwrite-padded zero m (b ∷ bs) h = refl
overwrite-padded (suc n) m (b ∷ bs) h = ap (λ r. b ∷ r) (overwrite-padded n m bs (omega arith))

take-append : (n : ℕ) (xs ys : Bytes) → n ≤ length xs → take n xs ≡ take n (xs ++ ys)
take-append zero xs ys h = refl
take-append (suc n) [] ys h = absurd (omega arith)
take-append (suc n) (x ∷ xs) ys h = ap (λ r. x ∷ r) (take-append n xs ys (omega arith))

-- The seed is cut to 32 bytes, or filled up with zeros.
parse_seed-padded : (seed : Bytes) → parse_seed seed ≡ take 32 (seed ++ replicate 32 0)
unfolding parse_seed
parse_seed-padded seed = elim (Bool-cases (leb 32 (length seed))) [
  | inl t ↦ rw t (take-append 32 seed (replicate 32 0) (ground arith))
  | inr f ↦ rw f (overwrite-padded 32 32 seed (omega arith))
]
