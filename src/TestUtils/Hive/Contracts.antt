-- ===== src/TestUtils/Hive/Contracts.antt =====
-- What the genesis of a Hive test has for each account (src/test_utils/hive/mod.rs).
use kakarot_rpc.Prelude.{
  Option, none, some, List, [], ◌∷◌, ◌++◌, All, ◌≡◌, ◌≢◌, refl, sym, ap, ◌∙◌, subst,
}
use kakarot_rpc.Prelude.Bytes.{Bytes}
use kakarot_rpc.Prelude.Map.{Map, get, put, get-put, get-put_other}
use kakarot_rpc.Prelude.Result.{ok}
use kakarot_rpc.Felt.{FieldElement, IsField}
use kakarot_rpc.EthProvider.Database.Reads.{ok_injective}
use kakarot_rpc.TestUtils.Genesis.{GenesisCrates, GenesisContract, compute_starknet_address}
use kakarot_rpc.TestUtils.Genesis.Initialized.{Initialized, u128_max}
use kakarot_rpc.TestUtils.Genesis.Funds.{next_apart}
use kakarot_rpc.TestUtils.Hive.{
  AccountInfo, AccountMaker, Gathered, ClassHashes, account_cells, account_contract,
  nothing_gathered,
}
use kakarot_rpc.TestUtils.Hive.Walked.{
  Converted, Steps, walk_keeps, walk-Parted, AreMaps, step-AreMaps,
}

pub some_injective {ℓ} : {A : Type ℓ} (a b : A) → some a ≡ some b → a ≡ b
some_injective a b h = cc

module _ (F : FieldElement) (C : GenesisCrates F) where
  -- The entry is of another account.
  abbrev pub Elsewhere : Initialized F C → F.Felt → Bytes × AccountInfo → Type 0
  Elsewhere b account entry =
      (evm a : F.Felt)
      → F.from_byte_slice_be entry.0 ≡ some evm
      → compute_starknet_address F C b evm ≡ ok a
      → a ≢ account

  -- The entry is known to Kakarot under another key.
  abbrev pub Unmapped : F.Felt → Bytes × AccountInfo → Type 0
  Unmapped mapping entry =
      (evm key : F.Felt)
      → F.from_byte_slice_be entry.0 ≡ some evm
      → C.get_storage_var_address "evm_to_starknet_address" (evm ∷ []) ≡ ok key
      → key ≢ mapping

module _ (F : FieldElement) (C : GenesisCrates F) (new_account : AccountMaker F) where
  module _ (b : Initialized F C) (c : ClassHashes F C new_account) where
    step-contract :
        (account : F.Felt) (o : Option (GenesisContract F C)) (entry : Bytes × AccountInfo)
        (w w' : Gathered F C new_account)
        → Elsewhere F C b account entry
        → Converted F C new_account b c entry w w'
        → get F.felt_eq account w.contracts ≡ o
        → get F.felt_eq account w'.contracts ≡ o
    step-contract account o entry w w' apart s h =
        subst (λ (v : Gathered F C new_account). get F.felt_eq account v.contracts ≡ o) s.result
          (get-put_other F.felt_eq s.account account _ w.contracts
              (λ e. apart s.evm s.account s.evm_known s.account_known (sym e))
            ∙ h)

    step-mapping :
        (mapping account : F.Felt) (entry : Bytes × AccountInfo) (w w' : Gathered F C new_account)
        → Unmapped F C mapping entry
        → Converted F C new_account b c entry w w'
        → get F.felt_eq mapping w.kakarot_storage ≡ some account
        → get F.felt_eq mapping w'.kakarot_storage ≡ some account
    step-mapping mapping account entry w w' apart s h =
        subst
          (λ (v : Gathered F C new_account). get F.felt_eq mapping v.kakarot_storage ≡ some account)
          s.result
          (get-put_other F.felt_eq s.mapping mapping _ w.kakarot_storage
              (λ e. apart s.evm s.mapping s.evm_known s.mapping_known (sym e))
            ∙ h)

    -- An approval of the greatest amount stays one.
    step-approval :
        (key : F.Felt) (entry : Bytes × AccountInfo) (w w' : Gathered F C new_account)
        → Unit {0}
        → Converted F C new_account b c entry w w'
        → get F.felt_eq key w.fee_token_storage ≡ some (u128_max F C)
        → get F.felt_eq key w'.fee_token_storage ≡ some (u128_max F C)
    step-approval key entry w w' _ s h =
        subst
          (λ (v : Gathered F C new_account).
            get F.felt_eq key v.fee_token_storage ≡ some (u128_max F C))
          s.result
          (put_same (F.add s.key F.one_felt)
            (put F.felt_eq s.key (u128_max F C) w.fee_token_storage)
            (put_same s.key w.fee_token_storage h))
      where
        put_same :
            (k : F.Felt) (m : Map F.Felt F.Felt)
            → get F.felt_eq key m ≡ some (u128_max F C)
            → get F.felt_eq key (put F.felt_eq k (u128_max F C) m) ≡ some (u128_max F C)
        put_same k m h' = elim (F.felt_eq key k) [
          | yes e ↦
              ap (λ i. get F.felt_eq i (put F.felt_eq k (u128_max F C) m)) e
              ∙ get-put F.felt_eq k (u128_max F C) m
          | no n ↦ get-put_other F.felt_eq k key (u128_max F C) m n ∙ h'
        ]

    -- No account of the walk is at the address, so there is no contract at it.
    pub walk-Elsewhere :
        (entries : List (Bytes × AccountInfo)) (w : Gathered F C new_account) (account : F.Felt)
        → Steps F C new_account b c entries (nothing_gathered F C new_account) w
        → All (Elsewhere F C b account) entries
        → get F.felt_eq account w.contracts ≡ none
    walk-Elsewhere entries w account h apart =
        walk_keeps F C new_account b c _ (Elsewhere F C b account) (step-contract account none)
          entries (nothing_gathered F C new_account) w apart h refl

    -- The key at which Kakarot finds an account has its address, if no later account has the key.
    pub walk_maps :
        (before after : List (Bytes × AccountInfo)) (entry : Bytes × AccountInfo)
        (evm account mapping : F.Felt) (w w' : Gathered F C new_account)
        → Steps F C new_account b c (before ++ entry ∷ after) w w'
        → F.from_byte_slice_be entry.0 ≡ some evm
        → compute_starknet_address F C b evm ≡ ok account
        → C.get_storage_var_address "evm_to_starknet_address" (evm ∷ []) ≡ ok mapping
        → All (Unmapped F C mapping) after
        → get F.felt_eq mapping w'.kakarot_storage ≡ some account
    walk_maps before after entry evm account mapping w w' h at_evm at_account at_mapping apart =
        let p = walk-Parted F C new_account b c before entry after w w' h in
        let s = p.step in
        let same_evm : s.evm ≡ evm = some_injective s.evm evm (sym s.evm_known ∙ at_evm) in
        let same : s.account ≡ account =
          ok_injective s.account account
            (sym s.account_known ∙ ap (compute_starknet_address F C b) same_evm ∙ at_account) in
        let same_key : s.mapping ≡ mapping = ok_injective s.mapping mapping (
          sym s.mapping_known
          ∙ ap (λ e. C.get_storage_var_address "evm_to_starknet_address" (e ∷ [])) same_evm
          ∙ at_mapping) in
        let at_step : get F.felt_eq s.mapping p.to.kakarot_storage ≡ some s.account =
          subst
            (λ (v : Gathered F C new_account).
              get F.felt_eq s.mapping v.kakarot_storage ≡ some s.account)
            s.result (get-put F.felt_eq s.mapping s.account p.from.kakarot_storage) in
        walk_keeps F C new_account b c _ (Unmapped F C mapping) (step-mapping mapping account) after
          p.to w' apart p.rest
          (ap (λ k. get F.felt_eq k p.to.kakarot_storage) (sym same_key) ∙ at_step ∙ ap some same)

    All-steps : (entries : List (Bytes × AccountInfo)) → All (λ _. Unit {0}) entries
    All-steps [] = tt
    All-steps (e ∷ es) = (tt, All-steps es)

    pub walk-AreMaps :
        (entries : List (Bytes × AccountInfo)) (w : Gathered F C new_account)
        → Steps F C new_account b c entries (nothing_gathered F C new_account) w
        → AreMaps F C new_account b c w
    walk-AreMaps entries w h =
        walk_keeps F C new_account b c (AreMaps F C new_account b c) (λ _. Unit {0})
          (λ entry v v' _ s m. step-AreMaps F C new_account b c entry v v' s m) entries
          (nothing_gathered F C new_account) w (All-steps entries) h
          (record { kakarot_map = tt; fee_token_map = tt; contracts_map = tt })

    -- What a walk gathers for an account.
    pub record GatheredFor (entry : Bytes × AccountInfo) (account : F.Felt)
        (w : Gathered F C new_account) : Type 0 where
      pub cells : List (F.Felt × F.Felt)
      pub key : F.Felt
      pub cells_known : account_cells F C new_account c entry.0 entry.1 ≡ ok cells
      pub key_known :
          C.get_storage_var_address "ERC20_allowances" (account ∷ c.kakarot_address ∷ []) ≡ ok key
      pub there :
          get F.felt_eq account w.contracts
          ≡ some (account_contract F C new_account c entry.1 cells)
      pub low : get F.felt_eq key w.fee_token_storage ≡ some (u128_max F C)
      pub high : get F.felt_eq (F.add key F.one_felt) w.fee_token_storage ≡ some (u128_max F C)

    module _ (L : IsField F) where
      step-GatheredFor :
          (entry : Bytes × AccountInfo) (w w' : Gathered F C new_account)
          → (s : Converted F C new_account b c entry w w') → GatheredFor entry s.account w'
      step-GatheredFor entry w w' s = subst (GatheredFor entry s.account) s.result (record {
        cells = s.cells;
        key = s.key;
        cells_known = s.cells_known;
        key_known = s.key_known;
        there = get-put F.felt_eq s.account _ w.contracts;
        low =
            get-put_other F.felt_eq (F.add s.key F.one_felt) s.key (u128_max F C) _
              (next_apart F L C s.key)
            ∙ get-put F.felt_eq s.key (u128_max F C) w.fee_token_storage;
        high = get-put F.felt_eq (F.add s.key F.one_felt) (u128_max F C) _;
      })

      pub walk-GatheredFor :
          (before after : List (Bytes × AccountInfo)) (entry : Bytes × AccountInfo)
          (evm account : F.Felt) (w w' : Gathered F C new_account)
          → Steps F C new_account b c (before ++ entry ∷ after) w w'
          → F.from_byte_slice_be entry.0 ≡ some evm
          → compute_starknet_address F C b evm ≡ ok account
          → All (Elsewhere F C b account) after
          → GatheredFor entry account w'
      walk-GatheredFor before after entry evm account w w' h at_evm at_account apart =
          let p = walk-Parted F C new_account b c before entry after w w' h in
          let same_evm : p.step.evm ≡ evm =
            some_injective p.step.evm evm (sym p.step.evm_known ∙ at_evm) in
          let same : p.step.account ≡ account = ok_injective p.step.account account (
            sym p.step.account_known ∙ ap (compute_starknet_address F C b) same_evm ∙ at_account) in
          let g : GatheredFor entry account p.to =
            subst (λ a. GatheredFor entry a p.to) same
              (step-GatheredFor entry p.from p.to p.step) in
          record {
            cells = g.cells;
            key = g.key;
            cells_known = g.cells_known;
            key_known = g.key_known;
            there =
                walk_keeps F C new_account b c _ (Elsewhere F C b account)
                  (step-contract account
                    (some (account_contract F C new_account c entry.1 g.cells)))
                  after p.to w' apart p.rest g.there;
            low =
                walk_keeps F C new_account b c _ (λ _. Unit {0}) (step-approval g.key) after p.to w'
                  (All-steps after) p.rest g.low;
            high =
                walk_keeps F C new_account b c _ (λ _. Unit {0})
                  (step-approval (F.add g.key F.one_felt)) after p.to w' (All-steps after) p.rest
                  g.high;
          }
