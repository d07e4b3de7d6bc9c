-- ===== src/Models/Errors.antt =====
-- The conversion errors (src/models/errors.rs).
use kakarot_rpc.Prelude.{String}

pub data ConversionError : Type 0 where
  felt252_wrapper_conversion_error : ConversionError
  to_ethereum_address_error : ConversionError
  to_starknet_transaction_error : String → ConversionError
  value_out_of_range : String → ConversionError
  uint_conversion_error : String → ConversionError
  other : String → ConversionError

-- `From<FromUintError<T>>`: the text of the error is kept.
abbrev pub from_uint_error : String → ConversionError
from_uint_error message = uint_conversion_error message
