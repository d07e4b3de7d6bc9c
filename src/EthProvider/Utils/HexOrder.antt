-- ===== src/EthProvider/Utils/HexOrder.antt =====
-- The texts of `format_hex` (src/eth_provider/utils.rs), compared character by character, as the
-- database compares them.
use Prim.Native.Nat.{compare, Ordering}
use native.Mathlib.Nat.{pow-suc, pow-le-pow_right}
use mathlib.Core.List.{reverse-cons}
use kakarot_rpc.Prelude.{
  ℕ, zero, suc, ◌/◌, ◌%◌, ◌^◌, ◌≤◌, ◌<◌, ◌≡◌, refl, ap, ap₂, sym, ◌∙◌, [], ◌∷◌, ◌++◌, length, arith,
}
use kakarot_rpc.Prelude.Hex.{Text, hex_char, fixed_hex, length-fixed_hex, fixed_le}
use kakarot_rpc.EthProvider.Utils.{primitive_hex, format_hex}
use kakarot_rpc.EthProvider.Utils.FormatHex.{format_hex-u64}

-- The first difference decides.
abbrev and_then : Ordering → Ordering → Ordering
and_then Ordering.lt o = Ordering.lt
and_then Ordering.eq o = o
and_then Ordering.gt o = Ordering.gt

abbrev pub text_compare : Text → Text → Ordering
text_compare [] [] = Ordering.eq
text_compare [] (y ∷ ys) = Ordering.lt
text_compare (x ∷ xs) [] = Ordering.gt
text_compare (x ∷ xs) (y ∷ ys) = and_then (compare x y) (text_compare xs ys)

and_then_assoc : (o p q : Ordering) → and_then (and_then o p) q ≡ and_then o (and_then p q)
and_then_assoc Ordering.lt p q = refl
and_then_assoc Ordering.eq p q = refl
and_then_assoc Ordering.gt p q = refl

and_then-eq : (o : Ordering) → and_then o Ordering.eq ≡ o
and_then-eq Ordering.lt = refl
and_then-eq Ordering.eq = refl
and_then-eq Ordering.gt = refl

text_compare-snoc :
    (xs ys : Text) (x y : ℕ)
    → length xs ≡ length ys
    → text_compare (xs ++ x ∷ []) (ys ++ y ∷ []) ≡ and_then (text_compare xs ys) (compare x y)
text_compare-snoc [] [] x y h = and_then-eq (compare x y)
text_compare-snoc [] (_ ∷ ys) x y h = absurd (omega arith)
text_compare-snoc (_ ∷ xs) [] x y h = absurd (omega arith)
text_compare-snoc (x' ∷ xs) (y' ∷ ys) x y h =
    ap (and_then (compare x' y')) (text_compare-snoc xs ys x y (omega arith))
    ∙ sym (and_then_assoc (compare x' y') (text_compare xs ys) (compare x y))

-- The characters of the digits stand in the order of the digits.
compare-hex_char : (c d : ℕ) → c < 16 → d < 16 → compare (hex_char c) (hex_char d) ≡ compare c d
compare-hex_char c d hc hd = ground arith

compare-digits :
    (a b : ℕ) → and_then (compare (a / 16) (b / 16)) (compare (a % 16) (b % 16)) ≡ compare a b
compare-digits a b = ground arith

-- Texts of one width compare as their numbers do.
pub text_compare-fixed_hex :
    (n a b : ℕ)
    → a < 16 ^ n
    → b < 16 ^ n
    → text_compare (fixed_hex n a) (fixed_hex n b) ≡ compare a b
text_compare-fixed_hex zero a b ha hb = ground arith
text_compare-fixed_hex (suc n) a b ha hb =
    ap₂ text_compare (reverse-cons (hex_char (a % 16)) (fixed_le n (a / 16)))
      (reverse-cons (hex_char (b % 16)) (fixed_le n (b / 16)))
    ∙ text_compare-snoc (fixed_hex n (a / 16)) (fixed_hex n (b / 16)) _ _
        (length-fixed_hex n (a / 16) ∙ sym (length-fixed_hex n (b / 16)))
    ∙ ap₂ and_then
        (text_compare-fixed_hex n (a / 16) (b / 16) (omega (arith, pow-suc 16 n))
          (omega (arith, pow-suc 16 n)))
        (compare-hex_char (a % 16) (b % 16) (omega arith) (omega arith))
    ∙ compare-digits a b

-- The texts of two 64-bit integers, as the code writes them into filters at 16 digits or more,
-- compare character by character as the integers do.
pub format_hex_order :
    (a b width : ℕ)
    → a < 2 ^ 64
    → b < 2 ^ 64
    → 16 ≤ width
    → text_compare (format_hex primitive_hex a width) (format_hex primitive_hex b width)
      ≡ compare a b
format_hex_order a b width ha hb w =
    let room : 16 ^ 16 ≤ 16 ^ width = pow-le-pow_right (omega arith) w in
    rw (format_hex-u64 a width ha w, format_hex-u64 b width hb w)
      (text_compare-fixed_hex width a b (omega arith) (omega arith))
