-- ===== src/TestUtils/Hive/Deployed.antt =====
-- The contracts of the genesis of a Hive test, and what Kakarot knows of them
-- (src/test_utils/hive/mod.rs).
use kakarot_rpc.Prelude.{
  ◌^◌, ◌<◌, none, some, List, [], ◌∷◌, ◌++◌, All, ◌≡◌, refl, sym, ap, ◌∙◌, subst, unwrap_or,
}
use kakarot_rpc.Prelude.Bytes.{Bytes, from_be_bytes-to_be_bytes}
use kakarot_rpc.Prelude.Map.{Map, get, put, extend, get-put, get-extend, IsMap, overlay}
use kakarot_rpc.Prelude.Result.{ok, ok_or}
use kakarot_rpc.Felt.{FieldElement, IsField}
use kakarot_rpc.EthProvider.Database.Reads.{>>=-eq-ok, ok_injective, ok_or-eq-ok}
use kakarot_rpc.TestUtils.Genesis.{
  GenesisCrates, GenesisContract, GenesisJson, cache_load, proxy_class_hash, eoa_class_hash,
  contract_account_class_hash, compute_starknet_address,
}
use kakarot_rpc.TestUtils.Genesis.Initialized.{Initialized, u128_max, build, extend_storage}
use kakarot_rpc.TestUtils.Hive.{
  AccountInfo, AccountMaker, Gathered, ClassHashes, account_cells, account_contract,
  nothing_gathered, convert_accounts, class_hashes_of, with_gathered, genesis_with_accounts,
}
use kakarot_rpc.TestUtils.Hive.Walked.{Steps}
use kakarot_rpc.TestUtils.Hive.Contracts.{
  Elsewhere, Unmapped, walk-Elsewhere, walk_maps, walk-GatheredFor, walk-AreMaps,
}

module _ (F : FieldElement) (C : GenesisCrates F) where
  -- What a genesis has for an account: its contract, of the proxy class and with the balance, and
  -- the approval of Kakarot for the greatest amount, in two cells.
  pub record Deployed (b : Initialized F C) (info : AccountInfo) (account : F.Felt)
      (g : GenesisJson F C) : Type 0 where
    pub kakarot : F.Felt
    pub kakarot_known : cache_load F C b "kakarot_address" ≡ ok kakarot
    pub proxy : F.Felt
    pub proxy_known : proxy_class_hash F C b ≡ ok proxy
    pub contract : GenesisContract F C
    pub there : get F.felt_eq account g.contracts ≡ some contract
    pub class_of : contract.class ≡ some proxy
    pub balance_of : contract.balance ≡ some info.balance
    pub nonce_of : contract.nonce ≡ none
    pub key : F.Felt
    pub key_known : C.get_storage_var_address "ERC20_allowances" (account ∷ kakarot ∷ []) ≡ ok key
    pub low : get F.felt_eq key g.fee_token_storage ≡ some (u128_max F C)
    pub high : get F.felt_eq (F.add key F.one_felt) g.fee_token_storage ≡ some (u128_max F C)

  -- The contract of Kakarot has the address of the account at the key.
  pub record Mapped (kakarot mapping account : F.Felt) (g : GenesisJson F C) : Type 0 where
    pub contract : GenesisContract F C
    pub there : get F.felt_eq kakarot g.contracts ≡ some contract
    pub storage : Map F.Felt F.Felt
    pub storage_of : contract.storage ≡ some storage
    pub cell : get F.felt_eq mapping storage ≡ some account

module _ (F : FieldElement) (C : GenesisCrates F) (new_account : AccountMaker F) where
  -- The steps of a conversion that succeeds.
  pub record Made (alloc : List (Bytes × AccountInfo)) (b : Initialized F C) (g : GenesisJson F C)
      : Type 0 where
    pub hashes : ClassHashes F C new_account
    pub hashes_known : class_hashes_of F C new_account b ≡ ok hashes
    pub kakarot_known : cache_load F C b "kakarot_address" ≡ ok hashes.kakarot_address
    pub proxy_known : proxy_class_hash F C b ≡ ok hashes.proxy
    pub eoa_known : eoa_class_hash F C b ≡ ok hashes.eoa
    pub contract_account_known : contract_account_class_hash F C b ≡ ok hashes.contract_account
    pub walk : Gathered F C new_account
    pub walked : Steps F C new_account b hashes alloc (nothing_gathered F C new_account) walk
    pub built : GenesisJson F C
    pub kakarot : GenesisContract F C
    pub kakarot_there : get F.felt_eq hashes.kakarot_address built.contracts ≡ some kakarot
    pub result : with_gathered F C new_account built hashes.kakarot_address kakarot walk ≡ g

  abbrev pub hashes_made : F.Felt → F.Felt → F.Felt → F.Felt → ClassHashes F C new_account
  hashes_made k p e a = record { kakarot_address = k; proxy = p; eoa = e; contract_account = a }

  pub genesis_with_accounts-Made :
      (alloc : List (Bytes × AccountInfo)) (b : Initialized F C) (g : GenesisJson F C)
      → genesis_with_accounts F C new_account alloc b ≡ ok g
      → Made alloc b g
  unfolding genesis_with_accounts
  genesis_with_accounts-Made alloc b g h =
      let (c, e, h0) = >>=-eq-ok (class_hashes_of F C new_account b) _ g h in
      let (k, e1, k1) = >>=-eq-ok (cache_load F C b "kakarot_address") _ c e in
      let (p, e2, k2) = >>=-eq-ok (proxy_class_hash F C b) _ c k1 in
      let (eo, e3, k3) = >>=-eq-ok (eoa_class_hash F C b) _ c k2 in
      let (a, e4, k4) = >>=-eq-ok (contract_account_class_hash F C b) _ c k3 in
      let same : hashes_made k p eo a ≡ c = ok_injective (hashes_made k p eo a) c k4 in
      let (w, e5, h1) =
        >>=-eq-ok (convert_accounts F C new_account b c alloc (nothing_gathered F C new_account)) _
          g h0 in
      let (built, e6, h2) = >>=-eq-ok (build F C b) _ g h1 in
      let (contract, e7, h3) =
        >>=-eq-ok
          (ok_or "Kakarot contract not found" (get F.felt_eq c.kakarot_address built.contracts)) _ g
          h2 in
      record {
        hashes = c;
        hashes_known = e;
        kakarot_known = e1 ∙ ap (λ (x : ClassHashes F C new_account). ok x.kakarot_address) same;
        proxy_known = e2 ∙ ap (λ (x : ClassHashes F C new_account). ok x.proxy) same;
        eoa_known = e3 ∙ ap (λ (x : ClassHashes F C new_account). ok x.eoa) same;
        contract_account_known =
            e4 ∙ ap (λ (x : ClassHashes F C new_account). ok x.contract_account) same;
        walk = w;
        walked = e5;
        built = built;
        kakarot = contract;
        kakarot_there = ok_or-eq-ok "Kakarot contract not found" _ contract e7;
        result =
            ok_injective (with_gathered F C new_account built c.kakarot_address contract w) g h3;
      }

  overlaid :
      {V : Type 0} (k : F.Felt) (v : V) (m n : Map F.Felt V)
      → IsMap F.felt_eq m
      → get F.felt_eq k m ≡ some v
      → get F.felt_eq k (extend F.felt_eq m n) ≡ some v
  overlaid k v m n u h = get-extend F.felt_eq k m n u ∙ ap (λ o. overlay o (get F.felt_eq k n)) h

  -- What is put at a key that the map on top does not have.
  put_beneath :
      {V : Type 0} (j k : F.Felt) (v : V) (m n : Map F.Felt V)
      → IsMap F.felt_eq m
      → j ≡ k
      → get F.felt_eq k m ≡ none
      → get F.felt_eq k (extend F.felt_eq m (put F.felt_eq j v n)) ≡ some v
  put_beneath j k v m n u e away =
      get-extend F.felt_eq k m (put F.felt_eq j v n) u
      ∙ ap (λ o. overlay o (get F.felt_eq k (put F.felt_eq j v n))) away
      ∙ ap (λ i. get F.felt_eq i (put F.felt_eq j v n)) (sym e)
      ∙ get-put F.felt_eq j v n

  pub account-Mapped :
      (before after : List (Bytes × AccountInfo)) (address : Bytes) (info : AccountInfo)
      (b : Initialized F C) (g : GenesisJson F C) (evm account mapping kakarot : F.Felt)
      → genesis_with_accounts F C new_account (before ++ (address, info) ∷ after) b ≡ ok g
      → F.from_byte_slice_be address ≡ some evm
      → compute_starknet_address F C b evm ≡ ok account
      → C.get_storage_var_address "evm_to_starknet_address" (evm ∷ []) ≡ ok mapping
      → cache_load F C b "kakarot_address" ≡ ok kakarot
      → All (Unmapped F C mapping) after
      → All (Elsewhere F C b kakarot) (before ++ (address, info) ∷ after)
      → Mapped F C kakarot mapping account g
  account-Mapped before after address info b g evm account mapping kakarot h at_evm at_account
        at_mapping at_kakarot unmapped apart =
      let alloc = before ++ (address, info) ∷ after in
      let m = genesis_with_accounts-Made alloc b g h in
      let w = m.walk in
      let maps = walk-AreMaps F C new_account b m.hashes alloc w m.walked in
      let same : m.hashes.kakarot_address ≡ kakarot =
        ok_injective m.hashes.kakarot_address kakarot (sym m.kakarot_known ∙ at_kakarot) in
      let away : get F.felt_eq kakarot w.contracts ≡ none =
        walk-Elsewhere F C new_account b m.hashes alloc w kakarot m.walked apart in
      let mapped =
        walk_maps F C new_account b m.hashes before after (address, info) evm account mapping
          (nothing_gathered F C new_account) w m.walked at_evm at_account at_mapping unmapped in
      subst (Mapped F C kakarot mapping account) m.result (record {
        contract = extend_storage F C w.kakarot_storage m.kakarot;
        there =
            put_beneath m.hashes.kakarot_address kakarot
              (extend_storage F C w.kakarot_storage m.kakarot) w.contracts m.built.contracts
              maps.contracts_map same away;
        storage = extend F.felt_eq w.kakarot_storage (unwrap_or m.kakarot.storage []);
        storage_of = refl;
        cell = overlaid mapping account w.kakarot_storage _ maps.kakarot_map mapped;
      })

  module _ (L : IsField F) where
    pub account-Deployed :
        (before after : List (Bytes × AccountInfo)) (address : Bytes) (info : AccountInfo)
        (b : Initialized F C) (g : GenesisJson F C) (evm account : F.Felt)
        → genesis_with_accounts F C new_account (before ++ (address, info) ∷ after) b ≡ ok g
        → F.from_byte_slice_be address ≡ some evm
        → compute_starknet_address F C b evm ≡ ok account
        → info.balance < 256 ^ 32
        → All (Elsewhere F C b account) after
        → Deployed F C b info account g
    account-Deployed before after address info b g evm account h at_evm at_account fits apart =
        let m = genesis_with_accounts-Made (before ++ (address, info) ∷ after) b g h in
        let w = m.walk in
        let got =
          walk-GatheredFor F C new_account b m.hashes L before after (address, info) evm account
            (nothing_gathered F C new_account) w m.walked at_evm at_account apart in
        let maps = walk-AreMaps F C new_account b m.hashes _ w m.walked in
        subst (Deployed F C b info account) m.result (record {
          kakarot = m.hashes.kakarot_address;
          kakarot_known = m.kakarot_known;
          proxy = m.hashes.proxy;
          proxy_known = m.proxy_known;
          contract = account_contract F C new_account m.hashes info got.cells;
          there = overlaid account _ w.contracts _ maps.contracts_map got.there;
          class_of = refl;
          balance_of = ap some (from_be_bytes-to_be_bytes 32 info.balance fits);
          nonce_of = refl;
          key = got.key;
          key_known = got.key_known;
          low = overlaid got.key _ w.fee_token_storage _ maps.fee_token_map got.low;
          high = overlaid _ _ w.fee_token_storage _ maps.fee_token_map got.high;
        })

    -- Its storage is that of the cells that the code makes for it.
    pub account_there :
        (before after : List (Bytes × AccountInfo)) (address : Bytes) (info : AccountInfo)
        (b : Initialized F C) (g : GenesisJson F C) (evm account : F.Felt)
        → genesis_with_accounts F C new_account (before ++ (address, info) ∷ after) b ≡ ok g
        → F.from_byte_slice_be address ≡ some evm
        → compute_starknet_address F C b evm ≡ ok account
        → All (Elsewhere F C b account) after
        → (c : ClassHashes F C new_account) × (class_hashes_of F C new_account b ≡ ok c)
          × (cells : List (F.Felt × F.Felt)) × (account_cells F C new_account c address info
              ≡ ok cells)
          × (get F.felt_eq account g.contracts
              ≡ some (account_contract F C new_account c info cells))
    account_there before after address info b g evm account h at_evm at_account apart =
        let m = genesis_with_accounts-Made (before ++ (address, info) ∷ after) b g h in
        let w = m.walk in
        let got =
          walk-GatheredFor F C new_account b m.hashes L before after (address, info) evm account
            (nothing_gathered F C new_account) w m.walked at_evm at_account apart in
        let maps = walk-AreMaps F C new_account b m.hashes _ w m.walked in
        (
          m.hashes,
          m.hashes_known,
          got.cells,
          got.cells_known,
          ap (λ (x : GenesisJson F C). get F.felt_eq account x.contracts) (sym m.result)
              ∙ overlaid account _ w.contracts _ maps.contracts_map got.there,
        )
