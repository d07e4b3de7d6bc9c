-- ===== src/EthProvider/Provider/Accounts/Words.antt =====
-- Words of two halves that contracts return: balances and storage.
use kakarot_rpc.Prelude.{
  ℕ, lt→ltb, ◌%◌, ◌/◌, ◌+◌, ◌*◌, ◌^◌, ◌<◌, ◌≡◌, refl, ap, Option, some, [], ◌∷◌, arith,
}
use kakarot_rpc.Prelude.Bytes.{Bytes, to_be_bytes}
use kakarot_rpc.Prelude.Result.{Result, ok, err, panic, ◌>>=◌}
use kakarot_rpc.Felt.{IsField}
use kakarot_rpc.Models.Felt.Words.{u256_from_felt_lem}
use kakarot_rpc.Models.Block.{BlockId, StarknetBlockId}
use kakarot_rpc.EthProvider.Error.{CallError}
use kakarot_rpc.EthProvider.Utils.{split_u256}
use kakarot_rpc.EthProvider.Starknet.{Uint256, starknet_address}
use kakarot_rpc.EthProvider.Provider.{Environment, or_call_error}
use kakarot_rpc.EthProvider.Provider.Blocks.{State, to_starknet_block_id}
use kakarot_rpc.EthProvider.Provider.Accounts.{balance, storage_at, u256_of}

module _ (E : Environment) (L : IsField E.field) where
  open E use {field as F, node as N, deployment as K}
  open L use {value}

  -- Two halves of 128 bits make up a word with no wrap.
  u256_of_halves :
      (w : Uint256 F)
      → value w.low < 2 ^ 128
      → value w.high < 2 ^ 128
      → u256_of E w ≡ value w.low + value w.high * 2 ^ 128
  u256_of_halves w hl hh =
      omega (arith, u256_from_felt_lem F L w.low, u256_from_felt_lem F L w.high)

  -- What the halves of a word that a contract returns are: numbers of 128 bits.
  abbrev pub HalvesFit : Result CallError (Uint256 F) → Type 0
  HalvesFit r = (w : Uint256 F) → r ≡ ok w → (value w.low < 2 ^ 128) × (value w.high < 2 ^ 128)

  abbrev pub amount : Uint256 F → ℕ
  amount w = value w.low + value w.high * 2 ^ 128

  -- A read of a word, whatever becomes of the word.
  of_read :
      {A : Type 0} (f : ℕ → A) (r : Result CallError (Uint256 F))
      → HalvesFit r
      → (or_call_error r >>= λ w. ok (f (u256_of E w)))
        ≡ (or_call_error r >>= λ w. ok (f (amount w)))
  of_read f (ok w) fit = ap (λ v. ok (f v)) (u256_of_halves w (fit w refl).0 (fit w refl).1)
  of_read f (err e) fit = refl
  of_read f panic fit = refl

  module _ (s : State E) (address : Bytes) (block_id : Option BlockId) (id : StarknetBlockId F)
      (account : F.Felt) (known : to_starknet_block_id E block_id ≡ ok id)
      (derived : starknet_address F K address ≡ ok account) where
    -- The balance of an address whose block and account are known is the amount of its account in
    -- the native token, if the two halves that the token returns have 128 bits; a failed call of
    -- the token is passed on.
    pub balance_lem :
        HalvesFit (N.balance_of s K.starknet_native_token account id)
        → balance E s address block_id ≡ (
            or_call_error (N.balance_of s K.starknet_native_token account id) >>= λ w.
            ok (amount w))
    unfolding balance
    balance_lem fit =
        rw (known, derived)
          (of_read (λ v. v) (N.balance_of s K.starknet_native_token account id) fit)

    -- The word that an account stores at an index is read at the key of the two halves of the
    -- index, and returned as 32 bytes, if the block and the account are known, the two halves that
    -- the account returns have 128 bits and the key is known; a failed read is passed on.
    pub storage_at_lem :
        (index : ℕ) (key : F.Felt)
        → index < 2 ^ 256
        → K.get_storage_var_address "storage_"
            (F.from_uint (index % 2 ^ 128) ∷ F.from_uint (index / 2 ^ 128) ∷ [])
          ≡ some key
        → HalvesFit (N.storage s account key id)
        → storage_at E s address index block_id
          ≡ (or_call_error (N.storage s account key id) >>= λ w. ok (to_be_bytes 32 (amount w)))
    unfolding storage_at split_u256
    storage_at_lem index key fits at_key halves =
        let low : index % 2 ^ 128 < 2 ^ 128 = omega arith in
        let high : index / 2 ^ 128 < 2 ^ 128 = omega arith in
        rw (known, derived, lt→ltb _ _ low, lt→ltb _ _ high, at_key)
          (of_read (to_be_bytes 32) (N.storage s account key id) halves)
