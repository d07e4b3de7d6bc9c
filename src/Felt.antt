-- ===== src/Felt.antt =====
-- `FieldElement` of the `starknet` crates: what the code calls, and what the crates document.
-- The type is a parameter of every definition that uses it.
pub mod Modular
use kakarot_rpc.Prelude.{
  ℕ, String, ◌+◌, ◌*◌, ◌%◌, ◌^◌, ◌≤◌, ◌<◌, ◌≡◌, ◌≢◌, Option, none, some, length,
}
use kakarot_rpc.Prelude.Bytes.{Bytes, IsBytes, to_be_bytes, from_be_bytes}

-- The order of the Stark field, 2^251 + 17 * 2^192 + 1.
abbrev pub stark_prime : ℕ
stark_prime = 2 ^ 251 + 17 * 2 ^ 192 + 1

pub record FieldElement : Type 1 where
  pub Felt : Type 0
  pub zero_felt : Felt
  pub one_felt : Felt
  -- `==`
  pub felt_eq : Discrete Felt
  -- `+`
  pub add : Felt → Felt → Felt
  -- `From<u8>`, `From<u32>`, `From<u64>`, `From<u128>` and `From<usize>`
  pub from_uint : ℕ → Felt
  -- `TryFrom<FieldElement>` for `u8`, `u64` and `u128`: the width in bits comes first.
  pub try_uint : ℕ → Felt → Option ℕ
  -- The text of `ValueOutOfRangeError`.
  pub range_message : String
  pub to_bytes_be : Felt → Bytes
  -- Of an array of 32 bytes.
  pub from_bytes_be : Bytes → Option Felt
  -- Of a slice of at most 32 bytes.
  pub from_byte_slice_be : Bytes → Option Felt

-- An element stands for a number below the prime, and the operations are those of the number.
pub record IsField (F : FieldElement) : Type 0 where
  pub value : F.Felt → ℕ
  pub value-lt : (f : F.Felt) → value f < stark_prime
  pub value_injective : (f g : F.Felt) → value f ≡ value g → f ≡ g
  pub value-zero_felt : value F.zero_felt ≡ 0
  pub value-one_felt : value F.one_felt ≡ 1
  pub value-add : (f g : F.Felt) → value (F.add f g) ≡ (value f + value g) % stark_prime
  pub value-from_uint : (n : ℕ) → n < 2 ^ 128 → value (F.from_uint n) ≡ n
  pub try_uint-fits :
      (bits : ℕ) (f : F.Felt) → value f < 2 ^ bits → F.try_uint bits f ≡ some (value f)
  pub try_uint-exceeds : (bits : ℕ) (f : F.Felt) → 2 ^ bits ≤ value f → F.try_uint bits f ≡ none
  pub to_bytes_be_lem : (f : F.Felt) → F.to_bytes_be f ≡ to_be_bytes 32 (value f)
  pub from_bytes_be-fits :
      (bs : Bytes)
      → length bs ≡ 32
      → from_be_bytes bs < stark_prime
      → (f : F.Felt) × (F.from_bytes_be bs ≡ some f) × (value f ≡ from_be_bytes bs)
  pub from_bytes_be-exceeds :
      (bs : Bytes) → length bs ≡ 32 → stark_prime ≤ from_be_bytes bs → F.from_bytes_be bs ≡ none
  pub from_byte_slice_be-fits :
      (bs : Bytes)
      → length bs ≤ 31
      → IsBytes bs
      → (f : F.Felt) × (F.from_byte_slice_be bs ≡ some f) × (value f ≡ from_be_bytes bs)
