-- ===== src/EthProvider/Utils/FormatHex.antt =====
-- The digits and the width of the texts of `format_hex` (src/eth_provider/utils.rs).
use native.Mathlib.Nat.{pow-le-pow_right}
use kakarot_rpc.Prelude.{
  zero, ℕ, suc, ◌+◌, ◌-◌, ◌^◌, ◌≤◌, ◌<◌, ◌≡◌, ◌⊎◌, inl, inr, ap, ◌∙◌, [], ◌∷◌, ◌++◌, length, lt→ltb,
  le→not-ltb, arith,
}
use kakarot_rpc.Prelude.Hex.{
  Text, pad_zeros, hex_digits, fixed_hex, length-fixed_hex, pad_zeros-hex_digits, pad_zeros-zero,
}
use kakarot_rpc.EthProvider.Utils.{LowerHex, primitive_hex, prefix_0x, format_hex}

-- What the code expects of a `LowerHex` at a width with its prefix: the digits are padded, or the
-- number is zero and one digit is written.
abbrev pub Formats : Text → ℕ → ℕ → Type 0
Formats digits width v = (digits ≡ fixed_hex width v) ⊎ ((v ≡ 0) × (digits ≡ b'0' ∷ []))

module _ {ℓ} {A : Type ℓ} (hex : LowerHex A) where
  -- Where the formatter pads, or writes zero as one digit, the text of `format_hex` is "0x" and
  -- exactly `width` digits, for every width above 3.
  pub format_hex_lem :
      (value : A) (width v : ℕ)
      → 3 < width
      → Formats (hex.digits (width + 2) value) width v
      → format_hex hex value width ≡ prefix_0x ++ fixed_hex width v
  unfolding format_hex
  format_hex_lem value width v wide (inl e) =
      let k : width ≤ suc (suc (length (fixed_hex width v))) =
        omega (arith, length-fixed_hex width v) in
      rw (e, le→not-ltb _ _ k)
  format_hex_lem value width v wide (inr (z, e)) =
      rw (e, lt→ltb _ _ wide, z) (ap (λ r. prefix_0x ++ r) (pad_zeros-zero width (omega arith)))

-- The text of a 64-bit integer, at any width from 16 digits on.
pub format_hex-u64 :
    (v width : ℕ)
    → v < 2 ^ 64
    → 16 ≤ width
    → format_hex primitive_hex v width ≡ prefix_0x ++ fixed_hex width v
format_hex-u64 v zero h w = absurd (omega arith)
format_hex-u64 v (suc n) h w =
    let k : suc n + 2 - 2 ≡ suc n = omega arith in
    let room : 16 ^ 16 ≤ 16 ^ suc n = pow-le-pow_right (omega arith) w in
    format_hex_lem primitive_hex v (suc n) v (omega arith) (
      inl (
        ap (λ m. pad_zeros m (hex_digits 16 v)) k
        ∙ pad_zeros-hex_digits 15 n v (omega arith) (omega arith)))
