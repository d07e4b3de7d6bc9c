-- ===== src/Prelude/Chars.antt =====
-- `u8 as char`, and the collection of characters into a `String`.
use Prim.Native.Nat.{compare, Ordering}
use Prim.Native.Char.{Char, char, IsScalar}
use kakarot_rpc.Prelude.{ℕ, ◌%◌, ◌<◌, ◌≡◌, List, [], ◌∷◌, String, arith}

byte-IsScalar : (n : ℕ) → n < 256 → IsScalar n
byte-IsScalar n p = let e : compare n 55296 ≡ Ordering.lt = ground arith in rw e tt

as_char : ℕ → Char
as_char n = char (n % 256) (byte-IsScalar (n % 256) (omega arith))

unfoldable pub string_of_bytes : List ℕ → String
unfolding as_char byte-IsScalar
string_of_bytes [] = String.[]
string_of_bytes (b ∷ bs) = String.◌∷◌ (as_char b) (string_of_bytes bs)
