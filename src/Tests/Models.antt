-- ===== src/Tests/Models.antt =====
-- The conversions, and the texts of numbers, at concrete inputs.
use Prim.Native.Nat.{Ordering}
use kakarot_rpc.Prelude.{ℕ, ◌+◌, ◌^◌, ◌≡◌, arith}
use kakarot_rpc.Prelude.Result.{ok, err, ◌>>=◌}
use kakarot_rpc.Felt.Modular.{residue, modular, modular-IsField}
use kakarot_rpc.Models.Errors.{to_ethereum_address_error}
use kakarot_rpc.Models.Felt.{address_from_felt, felt_from_u256, u256_from_felt}
use kakarot_rpc.Models.Felt.Address.{address_from_felt_lem}
use kakarot_rpc.Models.Felt.Words.{u256_round_trip}
use kakarot_rpc.EthProvider.Utils.{primitive_hex, format_hex}
use kakarot_rpc.EthProvider.Utils.HexOrder.{text_compare, format_hex_order}

abbrev word : ℕ
word = 2 ^ 200 + 3

address_from_felt_lem_example :
    address_from_felt modular (residue (2 ^ 160)) ≡ err to_ethereum_address_error
unfolding modular-IsField
address_from_felt_lem_example = address_from_felt_lem modular modular-IsField (residue (2 ^ 160))

u256_round_trip_example :
    (felt_from_u256 modular word >>= λ f. ok (u256_from_felt modular f)) ≡ ok word
u256_round_trip_example = u256_round_trip modular modular-IsField word (omega arith)

format_hex_order_example :
    text_compare (format_hex primitive_hex 255 64) (format_hex primitive_hex 256 64) ≡ Ordering.lt
format_hex_order_example = format_hex_order 255 256 64 (omega arith) (omega arith) (omega arith)
