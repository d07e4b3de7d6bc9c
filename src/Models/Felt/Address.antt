-- ===== src/Models/Felt/Address.antt =====
-- Addresses against field elements: the 20 bytes, and the bound of 2^160.
use mathlib.Core.List.{reverse-cons}
use native.Mathlib.Nat.{pow-suc}
use kakarot_rpc.Prelude.{
  ℕ, zero, suc, ◌≤◌, ◌<◌, ◌^◌, ◌/◌, ◌≡◌, ◌≢◌, refl, ap, sym, ◌∙◌, subst, dec_lt, length, take, any,
  not, arith, ltb, leb, ◌||◌, lt→ltb, if◌then◌else◌, ◌==◌, Bool, true, reverse, ◌++◌, List, [], ◌∷◌,
}
use kakarot_rpc.Prelude.Bytes.{
  Bytes, IsBytes, to_be_bytes, from_be_bytes, to_be_bytes-from_be_bytes, from_be_bytes-lt, shift,
  shift-lt, shift-zero, lt_of_shift, to_le_bytes,
}
use kakarot_rpc.Prelude.Result.{ok, err, unwrap, ◌>>=◌}
use kakarot_rpc.Felt.{FieldElement, IsField}
use kakarot_rpc.Models.Errors.{ConversionError, to_ethereum_address_error}
use kakarot_rpc.Models.Felt.{felt_from_address, address_from_felt, nonzero}

-- `any` does not depend on the order.
any-append : (test : ℕ → Bool) (xs ys : List ℕ) → any test (xs ++ ys) ≡ (any test ys || any test xs)
any-append test [] ys = ground arith
any-append test (x ∷ xs) ys = ground (arith, any-append test xs ys)

any-reverse : (test : ℕ → Bool) (xs : List ℕ) → any test (reverse xs) ≡ any test xs
any-reverse test [] = refl
any-reverse test (x ∷ xs) =
    ap (any test) (reverse-cons x xs)
    ∙ any-append test (reverse xs) (x ∷ [])
    ∙ ground (arith, any-reverse test xs)

nonzero-to_le_bytes : (n v : ℕ) → v < 256 ^ n → any nonzero (to_le_bytes n v) ≡ not (v == 0)
nonzero-to_le_bytes zero v h = let e : v ≡ 0 = omega arith in rw e
nonzero-to_le_bytes (suc n) v h =
    let ih = nonzero-to_le_bytes n (v / 256) (omega (arith, pow-suc 256 n)) in rw ih (ground arith)

nonzero_of_ne : (w : ℕ) → w ≢ 0 → nonzero w ≡ true
nonzero_of_ne w h = ground arith

-- The test of the 12 high bytes fails exactly from 2^160 on.
high_bytes : (v : ℕ) → v < 256 ^ 32 → any nonzero (take 12 (to_be_bytes 32 v)) ≡ leb (2 ^ 160) v
high_bytes v h =
    any-reverse nonzero (to_le_bytes 12 (shift 20 v))
    ∙ nonzero-to_le_bytes 12 (shift 20 v) (shift-lt 20 12 v h)
    ∙ zero_test
  where
    zero_test : not (shift 20 v == 0) ≡ leb (2 ^ 160) v
    zero_test = elim (dec_lt v (2 ^ 160)) [
      | yes p ↦ rw (shift-zero 20 v p) (ground arith)
      | no n ↦
          let h : 2 ^ 160 ≤ v = omega arith in
          let k : shift 20 v ≢ 0 = λ e. n (lt_of_shift 20 v e) in
          rw (nonzero_of_ne _ k) (ground arith)
    ]

module _ (F : FieldElement) (L : IsField F) where
  open L use {value, value-lt, to_bytes_be_lem, from_byte_slice_be-fits}

  -- A field element is an address exactly when its number is below 2^160, and then the address is
  -- that number in 20 bytes. Any other is refused.
  pub address_from_felt_lem :
      (f : F.Felt)
      → address_from_felt F f ≡ (
          if ltb (value f) (2 ^ 160)
          then ok (to_be_bytes 20 (value f))
          else err to_ethereum_address_error)
  unfolding address_from_felt
  address_from_felt_lem f =
      rw (to_bytes_be_lem f, high_bytes (value f) (omega (arith, value-lt f))) (ground arith)

  -- The conversion of an address succeeds, and the element stands for the number of its bytes.
  pub felt_from_address_lem {ℓ} :
      {E : Type ℓ} (address : Bytes)
      → length address ≡ 20
      → IsBytes address
      → (f : F.Felt) × (felt_from_address F {E = E} address ≡ ok f)
        × (value f ≡ from_be_bytes address)
  unfolding felt_from_address
  felt_from_address_lem address w h =
      let (f, e, n) = from_byte_slice_be-fits address (omega arith) h in (f, ap unwrap e, n)

  -- An address of 20 bytes survives the way through a field element.
  pub address_round_trip :
      (address : Bytes)
      → length address ≡ 20
      → IsBytes address
      → (felt_from_address F address >>= address_from_felt F) ≡ ok address
  address_round_trip address w h =
      let (f, e, n) = felt_from_address_lem {E = ConversionError} address w h in
      let bound : from_be_bytes address < 2 ^ 160 =
        subst (λ k. from_be_bytes address < 256 ^ k) w (from_be_bytes-lt address h) in
      rw (e, address_from_felt_lem f, n, lt→ltb _ _ bound)
        (ap ok (
          ap (λ k. to_be_bytes k (from_be_bytes address)) (sym w)
          ∙ to_be_bytes-from_be_bytes address h))
