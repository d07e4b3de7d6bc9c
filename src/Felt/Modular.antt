-- ===== src/Felt/Modular.antt =====
-- A field element as a number below the prime: the assumptions of `IsField` can be met.
use mathlib.Core.HLevel.{Σ_prop_path}
use native.Mathlib.Bridge.{le_prop}
use native.Mathlib.Nat.{pow-le-pow_right}
use mathlib.Core.Logic.{dif_pos, dif_neg}
use kakarot_rpc.Prelude.{
  ℕ, ◌+◌, ◌%◌, ◌^◌, ◌≤◌, ◌<◌, ◌≡◌, refl, ap, dec_lt, ℕ_discrete, dite, Option, none, some, length,
  arith, ltb, lt→ltb, le→not-ltb, if◌then◌else◌,
}
use kakarot_rpc.Prelude.Bytes.{Bytes, IsBytes, to_be_bytes, from_be_bytes, from_be_bytes-lt}
use kakarot_rpc.Felt.{FieldElement, IsField, stark_prime}

abbrev pub Residue : Type 0
Residue = (n : ℕ) × (n < stark_prime)

abbrev pub residue : ℕ → Residue
residue n = (n % stark_prime, omega arith)

abbrev pub residue-eq : (f g : Residue) → f.0 ≡ g.0 → f ≡ g
residue-eq f g e = Σ_prop_path (λ n. le_prop) e

abbrev residue_dec : Discrete Residue
residue_dec f g = elim (ℕ_discrete f.0 g.0) [
  | yes e ↦ yes (residue-eq f g e)
  | no n ↦ no (λ e. n (ap (λ (r : Residue). r.0) e))
]

abbrev pub below_prime : ℕ → Option Residue
below_prime n = dite (dec_lt n stark_prime) (λ h. some (n, h)) (λ _. none)

abbrev pub modular : FieldElement
modular = record {
  Felt = Residue;
  zero_felt = residue 0;
  one_felt = residue 1;
  felt_eq = residue_dec;
  add = λ f g. residue (f.0 + g.0);
  from_uint = residue;
  try_uint = λ bits f. if ltb f.0 (2 ^ bits) then some f.0 else none;
  range_message = "number out of range";
  to_bytes_be = λ f. to_be_bytes 32 f.0;
  from_bytes_be = λ bs. below_prime (from_be_bytes bs);
  from_byte_slice_be = λ bs. below_prime (from_be_bytes bs);
}

pub below_prime-fits :
    (n : ℕ) → n < stark_prime → (f : Residue) × (below_prime n ≡ some f) × (f.0 ≡ n)
below_prime-fits n h = ((n, h), dif_pos (dec_lt n stark_prime) le_prop h _ _, refl)

pub below_prime-exceeds : (n : ℕ) → stark_prime ≤ n → below_prime n ≡ none
below_prime-exceeds n h = dif_neg (dec_lt n stark_prime) (omega arith) _ _

-- `from_byte_slice_be` of at most 31 bytes: they hold a number below the prime.
pub short-lt_prime : (bs : Bytes) → length bs ≤ 31 → IsBytes bs → from_be_bytes bs < stark_prime
short-lt_prime bs short h =
    let wide : 256 ^ length bs ≤ 256 ^ 31 = pow-le-pow_right (omega arith) short in
    omega (arith, from_be_bytes-lt bs h)

unfoldable pub modular-IsField : IsField modular
modular-IsField = record {
  value = λ f. f.0;
  value-lt = λ f. f.1;
  value_injective = residue-eq;
  value-zero_felt = refl;
  value-one_felt = refl;
  value-add = λ f g. refl;
  value-from_uint = λ n h. omega arith;
  try_uint-fits = λ bits f h. rw (lt→ltb _ _ h);
  try_uint-exceeds = λ bits f h. rw (le→not-ltb _ _ h);
  to_bytes_be_lem = λ f. refl;
  from_bytes_be-fits = λ bs _ h. below_prime-fits (from_be_bytes bs) h;
  from_bytes_be-exceeds = λ bs _ h. below_prime-exceeds (from_be_bytes bs) h;
  from_byte_slice_be-fits =
      λ bs short h. below_prime-fits (from_be_bytes bs) (short-lt_prime bs short h);
}
