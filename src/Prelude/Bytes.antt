-- ===== src/Prelude/Bytes.antt =====
-- Byte strings and the numbers that they write: `to_be_bytes`, `from_be_bytes` of the integers.
use mathlib.Core.List.{reverse-reverse}
use native.Mathlib.Nat.{pow-suc}
use kakarot_rpc.Prelude.{
  ℕ, zero, suc, ◌+◌, ◌*◌, ◌/◌, ◌%◌, ◌^◌, ◌<◌, ◌≡◌, refl, ap, sym, ap₂, ◌∙◌, subst,
}
use kakarot_rpc.Prelude.{
  List, [], ◌∷◌, reverse, length, drop, All, length-reverse, All-reverse, arith,
}

-- A byte string: each number is below 256 (`IsBytes`).
abbrev pub Bytes : Type 0
Bytes = List ℕ

abbrev pub IsBytes : Bytes → Type 0
IsBytes = All (λ b. b < 256)

-- The digits of a number in base 256, the lowest first.
abbrev pub to_le_bytes : ℕ → ℕ → Bytes
to_le_bytes zero v = []
to_le_bytes (suc n) v = v % 256 ∷ to_le_bytes n (v / 256)

abbrev pub from_le_bytes : Bytes → ℕ
from_le_bytes [] = 0
from_le_bytes (b ∷ bs) = b + from_le_bytes bs * 256

-- The highest first.
abbrev pub to_be_bytes : ℕ → ℕ → Bytes
to_be_bytes n v = reverse (to_le_bytes n v)

abbrev pub from_be_bytes : Bytes → ℕ
from_be_bytes bs = from_le_bytes (reverse bs)

pub length-to_le_bytes : (n v : ℕ) → length (to_le_bytes n v) ≡ n
length-to_le_bytes zero v = refl
length-to_le_bytes (suc n) v = ap suc (length-to_le_bytes n (v / 256))

pub length-to_be_bytes : (n v : ℕ) → length (to_be_bytes n v) ≡ n
length-to_be_bytes n v = length-reverse (to_le_bytes n v) ∙ length-to_le_bytes n v

to_le_bytes-IsBytes : (n v : ℕ) → IsBytes (to_le_bytes n v)
to_le_bytes-IsBytes zero v = tt
to_le_bytes-IsBytes (suc n) v = (omega arith, to_le_bytes-IsBytes n (v / 256))

pub to_be_bytes-IsBytes : (n v : ℕ) → IsBytes (to_be_bytes n v)
to_be_bytes-IsBytes n v = All-reverse (λ b. b < 256) (to_le_bytes n v) (to_le_bytes-IsBytes n v)

pub from_le_bytes-to_le_bytes : (n v : ℕ) → v < 256 ^ n → from_le_bytes (to_le_bytes n v) ≡ v
from_le_bytes-to_le_bytes zero v h = omega arith
from_le_bytes-to_le_bytes (suc n) v h =
    omega (arith, from_le_bytes-to_le_bytes n (v / 256) (omega (arith, pow-suc 256 n)))

pub from_be_bytes-to_be_bytes : (n v : ℕ) → v < 256 ^ n → from_be_bytes (to_be_bytes n v) ≡ v
from_be_bytes-to_be_bytes n v h =
    rw (reverse-reverse (to_le_bytes n v)) (from_le_bytes-to_le_bytes n v h)

to_le_bytes-from_le_bytes :
    (bs : Bytes) → IsBytes bs → to_le_bytes (length bs) (from_le_bytes bs) ≡ bs
to_le_bytes-from_le_bytes [] h = refl
to_le_bytes-from_le_bytes (b ∷ bs) h =
    let low : (b + from_le_bytes bs * 256) % 256 ≡ b = omega arith in
    let rest : (b + from_le_bytes bs * 256) / 256 ≡ from_le_bytes bs = omega arith in
    ap₂ (λ x r. x ∷ to_le_bytes (length bs) r) low rest
    ∙ ap (λ r. b ∷ r) (to_le_bytes-from_le_bytes bs h.1)

-- Every byte string is the big-endian form of its number.
pub to_be_bytes-from_be_bytes :
    (bs : Bytes) → IsBytes bs → to_be_bytes (length bs) (from_be_bytes bs) ≡ bs
to_be_bytes-from_be_bytes bs h =
    ap (λ n. to_be_bytes n (from_be_bytes bs)) (sym (length-reverse bs))
    ∙ ap reverse (to_le_bytes-from_le_bytes (reverse bs) (All-reverse (λ b. b < 256) bs h))
    ∙ reverse-reverse bs

from_le_bytes-lt : (bs : Bytes) → IsBytes bs → from_le_bytes bs < 256 ^ length bs
from_le_bytes-lt [] h = omega arith
from_le_bytes-lt (b ∷ bs) h = omega (arith, from_le_bytes-lt bs h.1, pow-suc 256 (length bs))

pub from_be_bytes-lt : (bs : Bytes) → IsBytes bs → from_be_bytes bs < 256 ^ length bs
from_be_bytes-lt bs h =
    rw (← length-reverse bs) (from_le_bytes-lt (reverse bs) (All-reverse (λ b. b < 256) bs h))

-- `v` with its `k` lowest bytes cut off.
abbrev pub shift : ℕ → ℕ → ℕ
shift zero v = v
shift (suc k) v = shift k (v / 256)

pub drop-to_le_bytes : (k m v : ℕ) → drop k (to_le_bytes (k + m) v) ≡ to_le_bytes m (shift k v)
drop-to_le_bytes zero m v = let e : zero + m ≡ m = omega arith in ap (λ n. to_le_bytes n v) e
drop-to_le_bytes (suc k) m v =
    let e : suc k + m ≡ suc (k + m) = omega arith in
    ap (λ n. drop (suc k) (to_le_bytes n v)) e ∙ drop-to_le_bytes k m (v / 256)

-- The cut leaves nothing exactly when `k` bytes hold the number.
pub shift-zero : (k v : ℕ) → v < 256 ^ k → shift k v ≡ 0
shift-zero zero v h = omega arith
shift-zero (suc k) v h = shift-zero k (v / 256) (omega (arith, pow-suc 256 k))

pub lt_of_shift : (k v : ℕ) → shift k v ≡ 0 → v < 256 ^ k
lt_of_shift zero v h = omega arith
lt_of_shift (suc k) v h = omega (arith, lt_of_shift k (v / 256) h, pow-suc 256 k)

pub shift-lt : (k m v : ℕ) → v < 256 ^ (k + m) → shift k v < 256 ^ m
shift-lt zero m v h = let e : zero + m ≡ m = omega arith in subst (λ n. v < 256 ^ n) e h
shift-lt (suc k) m v h =
    let e : suc k + m ≡ suc (k + m) = omega arith in
    let h' : v < 256 ^ suc (k + m) = subst (λ n. v < 256 ^ n) e h in
    shift-lt k m (v / 256) (omega (arith, pow-suc 256 (k + m)))
