-- ===== src/EthProvider/Utils.antt =====
-- The helpers of the provider (src/eth_provider/utils.rs).
pub mod FormatHex
pub mod HexOrder
pub mod SplitU256
use text.Mathlib.Text.{find?}
use kakarot_rpc.Prelude.{
  ℕ, ◌+◌, ◌-◌, ◌%◌, ◌/◌, ◌^◌, Bool, true, false, ◌&&◌, is_some, String, Option, none, some, List,
  [], ◌∷◌, ◌++◌, map, filter_map, length, ltb, if◌then◌else◌,
}
use kakarot_rpc.Prelude.Result.{Result, ok, err, panic, unwrap, ◌>>=◌}
use kakarot_rpc.Prelude.Hex.{Text, pad_zeros, hex_digits}
use kakarot_rpc.EthProvider.Document.{Document, string, doc}
use kakarot_rpc.EthProvider.Error.{CallError, ProviderError, StarknetError}

-- `iter_into`: the conversion is the argument.
abbrev pub iter_into {ℓ κ} : {S : Type ℓ} {D : Type κ} → (S → D) → List S → List D
iter_into into iter = map into iter

-- `try_from_u8_iterator`: what is no byte is left out.
abbrev pub try_from_u8_iterator {ℓ} : {I : Type ℓ} → (I → Option ℕ) → List I → List ℕ
try_from_u8_iterator try_into it = filter_map try_into it

-- `LowerHex` of a type: what `{:#0width$x}` writes behind its prefix "0x".
pub record LowerHex {ℓ} (A : Type ℓ) : Type ℓ where
  pub digits : (width : ℕ) → A → Text

-- The primitive integers of at most 64 bits: the width counts the prefix.
abbrev pub primitive_hex : LowerHex ℕ
primitive_hex = record { digits = λ width v. pad_zeros (width - 2) (hex_digits 16 v) }

abbrev pub prefix_0x : Text
prefix_0x = b'0' ∷ b'x' ∷ []

module _ {ℓ} {A : Type ℓ} (hex : LowerHex A) where
  -- `s[2..]` is what stands behind the prefix.
  unfoldable pub format_hex : A → ℕ → Text
  format_hex value width =
      let rest = hex.digits (width + 2) value in
      let s = prefix_0x ++ rest in
      if ltb (length s) width then prefix_0x ++ pad_zeros width rest else s

  unfoldable pub into_filter : String → A → ℕ → Document
  into_filter key value width = doc key (string (format_hex value width))

-- `TryFrom<U256> for u128`
abbrev pub try_u128 : ℕ → Option ℕ
try_u128 v = if ltb v (2 ^ 128) then some v else none

module _ {ℓ κ} {T : Type ℓ} {E : Type κ} (from : ℕ → T) where
  -- `value & U128::MAX` keeps the low 128 bits. The two `unwrap`s are panics if they fail.
  unfoldable pub split_u256 : ℕ → Result E (T × T)
  split_u256 value = do
    low ← unwrap (try_u128 (value % 2 ^ 128))
    high ← unwrap (try_u128 (value / 2 ^ 128))
    ok (from low, from high)

-- `str::contains`
abbrev pub contains : String → String → Bool
contains s piece = is_some (find? s piece)

module _ {ℓ} {T : Type ℓ} where
  unfoldable pub contract_not_found : Result CallError T → Bool
  contract_not_found (ok _) = false
  contract_not_found panic = false
  contract_not_found (err (CallError.other _)) = false
  contract_not_found (err (CallError.provider (ProviderError.other _))) = false
  contract_not_found
        (err (CallError.provider (ProviderError.starknet_error StarknetError.contract_not_found))) =
      true
  contract_not_found (err (CallError.provider (ProviderError.starknet_error _))) = false

  unfoldable pub entrypoint_not_found : Result CallError T → Bool
  entrypoint_not_found (ok _) = false
  entrypoint_not_found panic = false
  entrypoint_not_found (err (CallError.other _)) = false
  entrypoint_not_found (err (CallError.provider (ProviderError.other _))) = false
  entrypoint_not_found
        (err (
          CallError.provider
            (ProviderError.starknet_error (StarknetError.contract_error reason)))) =
      contains reason "Entry point" && contains reason "not found in contract"
  entrypoint_not_found (err (CallError.provider (ProviderError.starknet_error _))) = false
