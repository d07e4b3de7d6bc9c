-- ===== src/EthProvider/Utils/SplitU256.antt =====
-- The halves of `split_u256` (src/eth_provider/utils.rs).
use kakarot_rpc.Prelude.{ℕ, ◌+◌, ◌*◌, ◌%◌, ◌/◌, ◌^◌, ◌<◌, ◌≡◌, arith, lt→ltb}
use kakarot_rpc.Prelude.Result.{ok}
use kakarot_rpc.EthProvider.Utils.{split_u256}

-- No `unwrap` of `split_u256` panics: a 256-bit word has a low and a high half of 128 bits each,
-- which make it up again.
pub split_u256_total {ℓ κ} :
    {T : Type ℓ} {E : Type κ} (from : ℕ → T) (value : ℕ)
    → value < 2 ^ 256
    → (low : ℕ) × (high : ℕ) × (split_u256 {E = E} from value ≡ ok (from low, from high))
      × (low < 2 ^ 128)
      × (high < 2 ^ 128)
      × (value ≡ low + high * 2 ^ 128)
unfolding split_u256
split_u256_total from value h =
    let low : value % 2 ^ 128 < 2 ^ 128 = omega arith in
    let high : value / 2 ^ 128 < 2 ^ 128 = omega arith in
    (value % 2 ^ 128, value / 2 ^ 128, rw (lt→ltb _ _ low, lt→ltb _ _ high), low, high, omega arith)
