-- ===== src/Models/Felt.antt =====
-- `Felt252Wrapper` (src/models/felt.rs): a field element on its way to another type. The wrapper
-- has one field, so it is that field here. `B256` and `Address` are byte strings, of 32 and of 20
-- bytes. `U256` and `U64` are numbers below 2^256 and 2^64.
pub mod Address
pub mod Words
use kakarot_rpc.Prelude.{ℕ, Bool, true, false, take, drop, any, not, ◌==◌, if◌then◌else◌}
use kakarot_rpc.Prelude.Bytes.{Bytes, to_be_bytes, from_be_bytes}
use kakarot_rpc.Prelude.Result.{Result, ok, err, ok_or, unwrap}
use kakarot_rpc.Felt.{FieldElement}
use kakarot_rpc.Models.Errors.{
  ConversionError, felt252_wrapper_conversion_error, to_ethereum_address_error, value_out_of_range,
}

abbrev nonzero : ℕ → Bool
nonzero x = not (x == 0)

module _ (F : FieldElement) where
  -- `From<FieldElement> for Felt252Wrapper` and `From<Felt252Wrapper> for FieldElement`
  abbrev pub Felt252Wrapper : Type 0
  Felt252Wrapper = F.Felt

  -- `From<u64>`, and `From<U64>`, which goes through `u64`
  abbrev pub felt_from_u64 : ℕ → Felt252Wrapper
  felt_from_u64 n = F.from_uint n

  unfoldable pub u64_from_felt : Felt252Wrapper → Result ConversionError ℕ
  u64_from_felt f = ok_or (value_out_of_range F.range_message) (F.try_uint 64 f)

  unfoldable pub u128_from_felt : Felt252Wrapper → Result ConversionError ℕ
  u128_from_felt f = ok_or (value_out_of_range F.range_message) (F.try_uint 128 f)

  -- `From<Address>`, with its `unwrap`
  unfoldable pub felt_from_address {ℓ} : {E : Type ℓ} → Bytes → Result E Felt252Wrapper
  felt_from_address address = unwrap (F.from_byte_slice_be address)

  -- The first 12 of the 32 bytes have to be zero.
  unfoldable pub address_from_felt : Felt252Wrapper → Result ConversionError Bytes
  address_from_felt felt =
      let bytes = F.to_bytes_be felt in
      if any nonzero (take 12 bytes) then err to_ethereum_address_error else ok (drop 12 bytes)

  -- `TryFrom<B256>`
  unfoldable pub felt_from_b256 : Bytes → Result ConversionError Felt252Wrapper
  felt_from_b256 value = ok_or felt252_wrapper_conversion_error (F.from_bytes_be value)

  unfoldable pub b256_from_felt : Felt252Wrapper → Bytes
  b256_from_felt felt = F.to_bytes_be felt

  -- `TryFrom<U256>`
  unfoldable pub felt_from_u256 : ℕ → Result ConversionError Felt252Wrapper
  felt_from_u256 u256 =
      ok_or felt252_wrapper_conversion_error (F.from_bytes_be (to_be_bytes 32 u256))

  unfoldable pub u256_from_felt : Felt252Wrapper → ℕ
  u256_from_felt felt = from_be_bytes (F.to_bytes_be felt)
