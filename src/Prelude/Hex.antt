-- ===== src/Prelude/Hex.antt =====
-- Hexadecimal text, as code points: what `format!` writes for the primitive integers, and the
-- number that a text denotes.
use mathlib.Core.List.{reverse-cons, reverse-append}
use native.Mathlib.Nat.{pow-suc, one-le-pow}
use kakarot_rpc.Prelude.{
  ℕ, zero, suc, ◌+◌, ◌-◌, ◌/◌, ◌%◌, ◌^◌, ◌<◌, ◌≡◌, refl, false, ap, sym, ◌∙◌, List, [], ◌∷◌, ◌++◌,
  reverse, length, replicate, length-reverse, ltb, ◌==◌, if◌then◌else◌, arith, Bool-cases, inl, inr,
}

abbrev pub Text : Type 0
Text = List ℕ

-- '0' to '9', then 'a' to 'f'
abbrev pub hex_char : ℕ → ℕ
hex_char d = if ltb d 10 then 48 + d else 87 + d

-- The digits of a number, the lowest first, with no zero in front; `zero` has one digit. The fuel
-- is the number of digits that the type holds.
abbrev pub digits_le : ℕ → ℕ → Text
digits_le zero v = []
digits_le (suc f) v =
    let rest = digits_le f (v / 16) in
    if v / 16 == 0 then hex_char (v % 16) ∷ [] else hex_char (v % 16) ∷ rest

-- Exactly `n` digits, the lowest first.
abbrev pub fixed_le : ℕ → ℕ → Text
fixed_le zero v = []
fixed_le (suc n) v = hex_char (v % 16) ∷ fixed_le n (v / 16)

-- `{:x}`
abbrev pub hex_digits : ℕ → ℕ → Text
hex_digits fuel v = reverse (digits_le fuel v)

abbrev pub zeros : ℕ → Text
zeros n = replicate n 48

-- `text`, with zeros in front up to `n` characters.
abbrev pub pad_zeros : ℕ → Text → Text
pad_zeros n text = zeros (n - length text) ++ text

-- The number in exactly `n` digits.
abbrev pub fixed_hex : ℕ → ℕ → Text
fixed_hex n v = reverse (fixed_le n v)

length-fixed_le : (n v : ℕ) → length (fixed_le n v) ≡ n
length-fixed_le zero v = refl
length-fixed_le (suc n) v = ap suc (length-fixed_le n (v / 16))

pub length-fixed_hex : (n v : ℕ) → length (fixed_hex n v) ≡ n
length-fixed_hex n v = length-reverse (fixed_le n v) ∙ length-fixed_le n v

fixed_le-zero : (n : ℕ) → fixed_le n 0 ≡ zeros n
fixed_le-zero zero = refl
fixed_le-zero (suc n) = ap (λ r. 48 ∷ r) (fixed_le-zero n)

-- The digits of `v`, filled up with zeros behind (they are the high ones), are `n` digits.
abbrev fill : ℕ → Text → Text
fill n ds = ds ++ zeros (n - length ds)

fill-one : (f n v : ℕ) → v / 16 ≡ 0 → fill (suc n) (digits_le (suc f) v) ≡ fixed_le (suc n) v
fill-one f n v e =
    let k : suc n - 1 ≡ n = omega arith in
    rw e (ap (λ r. hex_char (v % 16) ∷ r) (ap (λ k. zeros k) k ∙ sym (fixed_le-zero n)))

fill-more :
    (f n v : ℕ)
    → (v / 16 == 0) ≡ false
    → fill n (digits_le f (v / 16)) ≡ fixed_le n (v / 16)
    → fill (suc n) (digits_le (suc f) v) ≡ fixed_le (suc n) v
fill-more f n v e ih =
    let k : suc n - suc (length (digits_le f (v / 16))) ≡ n - length (digits_le f (v / 16)) =
      omega arith in
    rw e (ap (λ r. hex_char (v % 16) ∷ r) (ap (λ k. digits_le f (v / 16) ++ zeros k) k ∙ ih))

fill-digits_le :
    (f n v : ℕ)
    → v < 16 ^ suc f
    → v < 16 ^ suc n
    → fill (suc n) (digits_le (suc f) v) ≡ fixed_le (suc n) v
fill-digits_le zero n v hf hn = fill-one zero n v (omega arith)
fill-digits_le (suc f) zero v hf hn = fill-one (suc f) zero v (omega arith)
fill-digits_le (suc f) (suc n) v hf hn = elim (Bool-cases (v / 16 == 0)) [
  | inl e ↦ fill-one (suc f) (suc n) v (ground arith)
  | inr e ↦ fill-more (suc f) (suc n) v e (
      fill-digits_le f n (v / 16) (omega (arith, pow-suc 16 (suc f)))
        (omega (arith, pow-suc 16 (suc n))))
]

replicate-snoc : (n : ℕ) → zeros n ++ 48 ∷ [] ≡ zeros (suc n)
replicate-snoc zero = refl
replicate-snoc (suc n) = ap (λ r. 48 ∷ r) (replicate-snoc n)

reverse-replicate : (n : ℕ) → reverse (zeros n) ≡ zeros n
reverse-replicate zero = refl
reverse-replicate (suc n) =
    reverse-cons 48 (zeros n) ∙ ap (λ r. r ++ 48 ∷ []) (reverse-replicate n) ∙ replicate-snoc n

-- Padding the text of a number that fits gives its fixed form.
pub pad_zeros-hex_digits :
    (f n v : ℕ)
    → v < 16 ^ suc f
    → v < 16 ^ suc n
    → pad_zeros (suc n) (hex_digits (suc f) v) ≡ fixed_hex (suc n) v
pad_zeros-hex_digits f n v hf hn =
    let ds = digits_le (suc f) v in
    ap (λ k. zeros (suc n - k) ++ reverse ds) (length-reverse ds)
    ∙ ap (λ r. r ++ reverse ds) (sym (reverse-replicate (suc n - length ds)))
    ∙ sym (reverse-append ds (zeros (suc n - length ds)))
    ∙ ap reverse (fill-digits_le f n v hf hn)

pub pad_zeros-zero : (n : ℕ) → 0 < n → pad_zeros n (48 ∷ []) ≡ fixed_hex n 0
pad_zeros-zero zero h = absurd (omega arith)
pad_zeros-zero (suc n) h =
    pad_zeros-hex_digits 0 n 0 (omega arith) (one-le-pow (suc n) 16 (omega arith))
