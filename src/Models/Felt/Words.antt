-- ===== src/Models/Felt/Words.antt =====
-- 256-bit words against field elements: which words convert, and what comes back.
use kakarot_rpc.Prelude.{
  ℕ, ◌≤◌, ◌<◌, ◌^◌, ◌≡◌, ap, ap₂, sym, subst, dec_lt, ◌∙◌, length, arith, ltb, lt→ltb, le→not-ltb,
  if◌then◌else◌,
}
use kakarot_rpc.Prelude.Bytes.{
  Bytes, IsBytes, to_be_bytes, from_be_bytes, length-to_be_bytes, from_be_bytes-to_be_bytes,
  to_be_bytes-from_be_bytes,
}
use kakarot_rpc.Prelude.Result.{ok, err, ok_or, ◌>>=◌}
use kakarot_rpc.Felt.{FieldElement, IsField, stark_prime}
use kakarot_rpc.Models.Errors.{felt252_wrapper_conversion_error}
use kakarot_rpc.Models.Felt.{felt_from_b256, b256_from_felt, felt_from_u256, u256_from_felt}

module _ (F : FieldElement) (L : IsField F) where
  open L use {
    value, value-lt, value_injective, to_bytes_be_lem, from_bytes_be-fits, from_bytes_be-exceeds,
  }

  -- A field element read as a `U256` is its number.
  pub u256_from_felt_lem : (f : F.Felt) → u256_from_felt F f ≡ value f
  unfolding u256_from_felt
  u256_from_felt_lem f =
      ap from_be_bytes (to_bytes_be_lem f)
      ∙ from_be_bytes-to_be_bytes 32 (value f) (omega (arith, value-lt f))

  pub felt_from_u256-fits :
      (v : ℕ) → v < stark_prime → (f : F.Felt) × (felt_from_u256 F v ≡ ok f) × (value f ≡ v)
  unfolding felt_from_u256
  felt_from_u256-fits v h =
      let same = from_be_bytes-to_be_bytes 32 v (omega arith) in
      let (f, e, n) =
        from_bytes_be-fits (to_be_bytes 32 v) (length-to_be_bytes 32 v)
          (subst (λ w. w < stark_prime) (sym same) h) in
      (f, ap (ok_or felt252_wrapper_conversion_error) e, n ∙ same)

  pub felt_from_u256-exceeds :
      (v : ℕ)
      → v < 2 ^ 256
      → stark_prime ≤ v
      → felt_from_u256 F v ≡ err felt252_wrapper_conversion_error
  unfolding felt_from_u256
  felt_from_u256-exceeds v w h =
      let same = from_be_bytes-to_be_bytes 32 v (omega arith) in
      ap (ok_or felt252_wrapper_conversion_error) (
        from_bytes_be-exceeds (to_be_bytes 32 v) (length-to_be_bytes 32 v)
          (subst (λ w. stark_prime ≤ w) (sym same) h))

  -- A field element survives the way through `U256`.
  pub felt_from_u256-u256_from_felt : (f : F.Felt) → felt_from_u256 F (u256_from_felt F f) ≡ ok f
  felt_from_u256-u256_from_felt f =
      let (g, e, n) = felt_from_u256-fits (value f) (value-lt f) in
      ap (felt_from_u256 F) (u256_from_felt_lem f) ∙ e ∙ ap ok (value_injective g f n)

  -- A `U256` survives the way through a field element exactly when it is below the prime; at or
  -- above it, the conversion is refused.
  pub u256_round_trip :
      (v : ℕ)
      → v < 2 ^ 256
      → (felt_from_u256 F v >>= λ f. ok (u256_from_felt F f))
        ≡ (if ltb v stark_prime then ok v else err felt252_wrapper_conversion_error)
  u256_round_trip v w = elim (dec_lt v stark_prime) [
    | yes h ↦
        let (f, e, n) = felt_from_u256-fits v h in
        rw (e, lt→ltb _ _ h) (ap ok (u256_from_felt_lem f ∙ n))
    | no n ↦
        let h : stark_prime ≤ v = omega arith in rw (felt_from_u256-exceeds v w h, le→not-ltb _ _ h)
  ]

  -- A `B256` of 32 bytes survives the way through a field element exactly when its number is below
  -- the prime; at or above it, the conversion is refused.
  pub b256_round_trip :
      (bs : Bytes)
      → length bs ≡ 32
      → IsBytes bs
      → (felt_from_b256 F bs >>= λ f. ok (b256_from_felt F f)) ≡ (
          if ltb (from_be_bytes bs) stark_prime
          then ok bs
          else err felt252_wrapper_conversion_error)
  unfolding felt_from_b256 b256_from_felt
  b256_round_trip bs w h = elim (dec_lt (from_be_bytes bs) stark_prime) [
    | yes p ↦
        let (f, e, n) = from_bytes_be-fits bs w p in
        rw (e, lt→ltb _ _ p)
          (ap ok (to_bytes_be_lem f ∙ ap₂ to_be_bytes (sym w) n ∙ to_be_bytes-from_be_bytes bs h))
    | no n ↦
        let p : stark_prime ≤ from_be_bytes bs = omega arith in
        rw (from_bytes_be-exceeds bs w p, le→not-ltb _ _ p)
  ]
