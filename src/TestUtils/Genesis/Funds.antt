-- ===== src/TestUtils/Genesis/Funds.antt =====
-- Funds for an account that was added: its balance, and the cells of the fee token.
use kakarot_rpc.Prelude.{
  ℕ, ◌+◌, ◌*◌, ◌%◌, ◌/◌, ◌^◌, ◌<◌, some, [], ◌∷◌, ◌≡◌, ◌≢◌, refl, ap, ◌∙◌, arith, lt→ltb,
}
use kakarot_rpc.Prelude.Bytes.{Bytes}
use kakarot_rpc.Prelude.Map.{get, put, get-put, get-put_other}
use kakarot_rpc.Prelude.Result.{ok}
use kakarot_rpc.Felt.{FieldElement, IsField}
use kakarot_rpc.TestUtils.Genesis.{GenesisCrates, GenesisContract, evm_address}
use kakarot_rpc.TestUtils.Genesis.Initialized.{Initialized, with_eoa, fund, account_funded}
use kakarot_rpc.TestUtils.Genesis.Ready.{Ready}
use kakarot_rpc.TestUtils.Genesis.Linked.{with_eoa-Has, with_eoa-address}

module _ (F : FieldElement) (L : IsField F) (C : GenesisCrates F) where
  open L use {value, value-lt, value-add, value-one_felt, value-from_uint}

  -- The key of the high half is another one.
  pub next_apart : (key : F.Felt) → key ≢ F.add key F.one_felt
  next_apart key e =
      let same : value key ≡ value (F.add key F.one_felt) = ap value e in
      absurd (omega (arith, same, value-add key F.one_felt, value-one_felt, value-lt key))

  -- What the genesis says of an account with funds: its contract has the balance, and the fee
  -- token has it at the key, in halves of 128 bits.
  pub record Funded (account key : F.Felt) (amount : ℕ) (b : Initialized F C) : Type 0 where
    pub contract : GenesisContract F C
    pub there : get F.felt_eq account b.contracts ≡ some contract
    pub balance : contract.balance ≡ some amount
    pub low : F.Felt
    pub high : F.Felt
    pub low_cell : get F.felt_eq key b.fee_token_storage ≡ some low
    pub high_cell : get F.felt_eq (F.add key F.one_felt) b.fee_token_storage ≡ some high
    pub halves : value low + value high * 2 ^ 128 ≡ amount

  account_funded-Funded :
      (b : Initialized F C) (account key : F.Felt) (eoa : GenesisContract F C) (amount : ℕ)
      → amount < 2 ^ 256
      → Funded account key amount (
          account_funded F C b account eoa key
            (F.from_uint (amount % 2 ^ 128))
            (F.from_uint (amount / 2 ^ 128))
            amount)
  account_funded-Funded b account key eoa amount fits =
      let low = F.from_uint (amount % 2 ^ 128) in
      let high = F.from_uint (amount / 2 ^ 128) in
      record {
        contract = record eoa { balance = some amount };
        there = get-put F.felt_eq account _ b.contracts;
        balance = refl;
        low = low;
        high = high;
        low_cell =
            get-put_other F.felt_eq (F.add key F.one_felt) key high
              (put F.felt_eq key low b.fee_token_storage) (next_apart key)
            ∙ get-put F.felt_eq key low b.fee_token_storage;
        high_cell =
            get-put F.felt_eq (F.add key F.one_felt) high
              (put F.felt_eq key low b.fee_token_storage);
        halves = omega (
          arith,
          value-from_uint (amount % 2 ^ 128) (omega arith),
          value-from_uint (amount / 2 ^ 128) (omega arith),
        );
      }

  -- An account that was added to a ready builder can be given any 256-bit amount, if the key of its
  -- balance is known; the builder then says that it has that amount.
  pub fund-with_eoa :
      (b : Initialized F C) (r : Ready F C b) (pk : Bytes) (b' : Initialized F C) (evm key : F.Felt)
      (amount : ℕ)
      → with_eoa F C pk b ≡ ok b'
      → evm_address F C pk ≡ ok evm
      → C.get_storage_var_address "ERC20_balances"
          (C.get_contract_address evm r.proxy.0 [] r.kakarot ∷ [])
        ≡ ok key
      → amount < 2 ^ 256
      → (b'' : Initialized F C) × (fund F C pk amount b' ≡ ok b'')
        × Funded (C.get_contract_address evm r.proxy.0 [] r.kakarot) key amount b''
  unfolding fund
  fund-with_eoa b r pk b' evm key amount added known at_key fits =
      let account = C.get_contract_address evm r.proxy.0 [] r.kakarot in
      let (eoa, there) = with_eoa-Has F C b r pk b' evm added known in
      let low : amount % 2 ^ 128 < 2 ^ 128 = omega arith in
      let high : amount / 2 ^ 128 < 2 ^ 128 = omega arith in
      (
        account_funded F C b' account eoa key (F.from_uint (amount % 2 ^ 128))
            (F.from_uint (amount / 2 ^ 128)) amount,
        rw (
          known,
          with_eoa-address F C b r pk b' evm added,
          there,
          at_key,
          lt→ltb _ _ low,
          lt→ltb _ _ high,
        ),
        account_funded-Funded b' account key eoa amount fits,
      )
