-- ===== src/TestUtils/Hive/Total.antt =====
-- A Hive genesis is converted without a failure (`try_into_genesis_json` of
-- src/test_utils/hive/mod.rs).
use Prim.Native.Char.{code}
use kakarot_rpc.Prelude.{
  Bool, true, leb, ◌&&◌, String, some, unwrap_or, List, [], ◌∷◌, ◌++◌, All, ◌≡◌, ◌≢◌, refl,
}
use kakarot_rpc.Prelude.Bytes.{Bytes}
use kakarot_rpc.Prelude.Result.{ok}
use kakarot_rpc.Felt.{FieldElement}
use kakarot_rpc.TestUtils.Genesis.{
  GenesisCrates, GenesisJson, KatanaGenesisBuilder, Status, with_kakarot, cache_load, class_hash,
}
use kakarot_rpc.TestUtils.Genesis.Initialized.{Initialized}
use kakarot_rpc.TestUtils.Genesis.Ready.{Ready, with_kakarot-Ready, address_of_Ready, build-Ready}
use kakarot_rpc.TestUtils.Hive.{
  AccountInfo, AccountMaker, AccountType, KakarotAccount, HiveGenesisConfig, Gathered, ClassHashes,
  implementation_cells, account_cells, gathered, account_contract, with_gathered, convert_account,
  convert_accounts, nothing_gathered, genesis_with_accounts, try_into_genesis_json,
}
use kakarot_rpc.TestUtils.Hive.Outcome.{try_into_genesis_json_started}

-- `str::is_ascii`
abbrev pub is_ascii : String → Bool
is_ascii String.[] = true
is_ascii (String.◌∷◌ c s) = leb (code c) 127 && is_ascii s

module _ (F : FieldElement) (C : GenesisCrates F) (new_account : AccountMaker F)
    (addressed : (name : String) (keys : List F.Felt)
      → is_ascii name ≡ true
      → (f : F.Felt) × (C.get_storage_var_address name keys ≡ ok f)) where
  -- An account that the crates can make, of a kind that the code names.
  abbrev pub Makeable : Bytes × AccountInfo → Type 0
  Makeable entry =
      ((evm : F.Felt) × (F.from_byte_slice_be entry.0 ≡ some evm))
      × (made : KakarotAccount F) × (new_account entry.0 (unwrap_or entry.1.code []) 0
            (unwrap_or entry.1.storage [])
          ≡ ok made)
      × (made.account_type ≢ AccountType.other)

  implementation_cells_total :
      (c : ClassHashes F C new_account) (t : AccountType) (key : F.Felt)
      → t ≢ AccountType.other
      → (cells : List (F.Felt × F.Felt)) × (implementation_cells F C new_account c t key ≡ ok cells)
  unfolding implementation_cells
  implementation_cells_total c AccountType.contract key n =
      let (owner, at_owner) = addressed "Ownable_owner" [] refl in
      ((key, c.contract_account) ∷ (owner, c.kakarot_address) ∷ [], rw at_owner)
  implementation_cells_total c AccountType.eoa key n = (_, refl)
  implementation_cells_total c AccountType.other key n = absurd (n refl)

  account_cells_total :
      (c : ClassHashes F C new_account) (entry : Bytes × AccountInfo)
      → Makeable entry
      → (cells : List (F.Felt × F.Felt)) × (account_cells F C new_account c entry.0 entry.1
          ≡ ok cells)
  unfolding account_cells
  account_cells_total c entry m =
      let (key, at_key) = addressed "_implementation" [] refl in
      let (cells, at_cells) = implementation_cells_total c m.1.account_type key m.3 in
      let (kakarot, at_kakarot) = addressed "kakarot_address" [] refl in
      (
        m.1.storage ++ (cells ++ (kakarot, c.kakarot_address) ∷ []),
        rw (m.2, at_key, at_cells, at_kakarot),
      )

  module _ (b : Initialized F C) (r : Ready F C b) (c : ClassHashes F C new_account) where
    convert_account_total :
        (entry : Bytes × AccountInfo) (w : Gathered F C new_account)
        → Makeable entry
        → (w' : Gathered F C new_account) × (convert_account F C new_account b c entry w ≡ ok w')
    unfolding convert_account
    convert_account_total entry w m =
        let evm = m.0.0 in
        let (mapping, at_mapping) = addressed "evm_to_starknet_address" (evm ∷ []) refl in
        let (cells, at_cells) = account_cells_total c entry m in
        let account = C.get_contract_address evm r.proxy.0 [] r.kakarot in
        let (key, at_key) = addressed "ERC20_allowances" (account ∷ c.kakarot_address ∷ []) refl in
        (
          gathered F C new_account w mapping account key
              (account_contract F C new_account c entry.1 cells),
          rw (m.0.1, address_of_Ready F C b r evm, at_mapping, at_cells, at_key),
        )

    convert_accounts_total :
        (entries : List (Bytes × AccountInfo)) (w : Gathered F C new_account)
        → All Makeable entries
        → (w' : Gathered F C new_account) × (convert_accounts F C new_account b c entries w ≡ ok w')
    unfolding convert_accounts
    convert_accounts_total [] w m = (w, refl)
    convert_accounts_total (entry ∷ entries) w m =
        let (v, e) = convert_account_total entry w m.0 in
        let (w', k) = convert_accounts_total entries v m.1 in (w', rw (e, k))

  genesis_with_accounts_total :
      (b : Initialized F C) (r : Ready F C b) (alloc : List (Bytes × AccountInfo))
      → All Makeable alloc
      → (g : GenesisJson F C) × (genesis_with_accounts F C new_account alloc b ≡ ok g)
  unfolding genesis_with_accounts cache_load class_hash
  genesis_with_accounts_total b r alloc m =
      let c : ClassHashes F C new_account = record {
        kakarot_address = r.kakarot;
        proxy = r.proxy.0;
        eoa = r.eoa.0;
        contract_account = r.contract_account.0;
      } in
      let (w, walked) = convert_accounts_total b r c alloc (nothing_gathered F C new_account) m in
      let (g, built, _, contracts, _) = build-Ready F C b r in
      (
        with_gathered F C new_account g r.kakarot r.deployed.0 w,
        rw (
          r.cached, r.proxy.1, r.eoa.1, r.contract_account.1, walked, built, contracts,
          r.deployed.1,
        ),
      )

  -- If ASCII names have addresses in storage, then a Hive genesis whose accounts can be made, of a
  -- kind that the code names, becomes a genesis, for every builder that takes the Kakarot contract:
  -- the Kakarot contract is found, and no unreachable branch is taken.
  pub try_into_genesis_json_total :
      (h : HiveGenesisConfig) (b : KatanaGenesisBuilder F C Status.loaded) (b' : Initialized F C)
      (coinbase : F.Felt)
      → F.from_byte_slice_be h.coinbase ≡ some coinbase
      → with_kakarot F C coinbase b ≡ ok b'
      → All Makeable h.alloc
      → (g : GenesisJson F C) × (try_into_genesis_json F C new_account h b ≡ ok g)
  try_into_genesis_json_total h b b' coinbase at_coinbase started m =
      let (g, e) =
        genesis_with_accounts_total b' (with_kakarot-Ready F C coinbase b b' started) h.alloc m in
      (g, rw (try_into_genesis_json_started F C new_account h b b' coinbase at_coinbase started) e)
