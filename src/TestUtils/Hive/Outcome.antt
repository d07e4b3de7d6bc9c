-- ===== src/TestUtils/Hive/Outcome.antt =====
-- The genesis that a Hive genesis becomes (`try_into_genesis_json` of
-- src/test_utils/hive/mod.rs).
use kakarot_rpc.Prelude.{
  ◌^◌, ◌<◌, some, List, [], ◌∷◌, ◌++◌, All, ◌≡◌, ◌≢◌, refl, sym, ap, ◌∙◌, subst, unwrap_or,
}
use kakarot_rpc.Prelude.Bytes.{Bytes}
use kakarot_rpc.Prelude.Map.{Map, get, extend, string_dec}
use kakarot_rpc.Prelude.Result.{ok}
use kakarot_rpc.Felt.{FieldElement, IsField}
use kakarot_rpc.EthProvider.Database.Reads.{>>=-eq-ok, ok_injective, ok_or-eq-ok}
use kakarot_rpc.TestUtils.Genesis.{
  GenesisCrates, GenesisContract, GenesisJson, KatanaGenesisBuilder, Status, with_kakarot,
  class_hash, proxy_class_hash, eoa_class_hash, contract_account_class_hash, cache_load,
  compute_starknet_address,
}
use kakarot_rpc.TestUtils.Genesis.Initialized.{Initialized}
use kakarot_rpc.TestUtils.Hive.{
  AccountInfo, AccountMaker, HiveGenesisConfig, KakarotAccount, ClassHashes, account_contract,
  class_hashes_of, genesis_with_accounts, try_into_genesis_json,
}
use kakarot_rpc.TestUtils.Hive.Contracts.{Elsewhere, Unmapped}
use kakarot_rpc.TestUtils.Hive.Deployed.{
  Deployed, Mapped, hashes_made, account-Deployed, account-Mapped, account_there,
}
use kakarot_rpc.TestUtils.Hive.Storage.{Stored, account_cells-Stored}

module _ (F : FieldElement) (C : GenesisCrates F) (new_account : AccountMaker F)
    (h : HiveGenesisConfig) (b : KatanaGenesisBuilder F C Status.loaded) (b' : Initialized F C)
    (coinbase : F.Felt) (at_coinbase : F.from_byte_slice_be h.coinbase ≡ some coinbase)
    (started : with_kakarot F C coinbase b ≡ ok b') where
  pub try_into_genesis_json_started :
      try_into_genesis_json F C new_account h b ≡ genesis_with_accounts F C new_account h.alloc b'
  unfolding try_into_genesis_json
  try_into_genesis_json_started = rw (at_coinbase, started)

  module _ (before after : List (Bytes × AccountInfo)) (address : Bytes) (info : AccountInfo)
      (allocated : h.alloc ≡ before ++ (address, info) ∷ after) (g : GenesisJson F C)
      (converted : try_into_genesis_json F C new_account h b ≡ ok g) (evm account : F.Felt)
      (at_evm : F.from_byte_slice_be address ≡ some evm)
      (at_account : compute_starknet_address F C b' evm ≡ ok account) where
    class_hashes_of-known :
        (c : ClassHashes F C new_account)
        → class_hashes_of F C new_account b' ≡ ok c
        → (get string_dec "kakarot_address" b'.cache ≡ some c.kakarot_address)
          × (get string_dec "contract_account" b'.class_hashes ≡ some c.contract_account)
          × (get string_dec "externally_owned_account" b'.class_hashes ≡ some c.eoa)
    unfolding cache_load class_hash
    class_hashes_of-known c known =
        let (k, ek, h1) = >>=-eq-ok (cache_load F C b' "kakarot_address") _ c known in
        let (p, ep, h2) = >>=-eq-ok (proxy_class_hash F C b') _ c h1 in
        let (e, ee, h3) = >>=-eq-ok (eoa_class_hash F C b') _ c h2 in
        let (a, ea, h4) = >>=-eq-ok (contract_account_class_hash F C b') _ c h3 in
        subst
          (λ (x : ClassHashes F C new_account).
            (get string_dec "kakarot_address" b'.cache ≡ some x.kakarot_address)
            × (get string_dec "contract_account" b'.class_hashes ≡ some x.contract_account)
            × (get string_dec "externally_owned_account" b'.class_hashes ≡ some x.eoa))
          (ok_injective (hashes_made F C new_account k p e a) c h4)
          (ok_or-eq-ok _ _ k ek, ok_or-eq-ok _ _ a ea, ok_or-eq-ok _ _ e ee)

    converted_alloc :
        genesis_with_accounts F C new_account (before ++ (address, info) ∷ after) b' ≡ ok g
    converted_alloc =
        ap (λ l. genesis_with_accounts F C new_account l b') (sym allocated)
        ∙ sym try_into_genesis_json_started
        ∙ converted

    -- In the genesis that a Hive genesis becomes, an account that is allocated, with a 256-bit
    -- balance and a Starknet address that no account after it has, has a contract of the proxy
    -- class with that balance and no nonce, and Kakarot may spend the greatest amount of its fee
    -- tokens.
    pub try_into_genesis_json-Deployed :
        IsField F
        → info.balance < 256 ^ 32
        → All (Elsewhere F C b' account) after
        → Deployed F C b' info account g
    try_into_genesis_json-Deployed L fits apart =
        account-Deployed F C new_account L before after address info b' g evm account
          converted_alloc at_evm at_account fits apart

    -- Kakarot's contract has the Starknet address of an allocated account under the key of its EVM
    -- address, if no account after it has that key and none is at the address of Kakarot.
    pub try_into_genesis_json-Mapped :
        (mapping kakarot : F.Felt)
        → C.get_storage_var_address "evm_to_starknet_address" (evm ∷ []) ≡ ok mapping
        → cache_load F C b' "kakarot_address" ≡ ok kakarot
        → All (Unmapped F C mapping) after
        → All (Elsewhere F C b' kakarot) (before ++ (address, info) ∷ after)
        → Mapped F C kakarot mapping account g
    try_into_genesis_json-Mapped mapping kakarot at_mapping at_kakarot unmapped apart =
        account-Mapped F C new_account before after address info b' g evm account mapping kakarot
          converted_alloc at_evm at_account at_mapping at_kakarot unmapped apart

    -- In the genesis that a Hive genesis becomes, the storage of the contract of an allocated
    -- account has the builder's Kakarot address, the builder's class of the kind of the account
    -- that is made, and under any other key than those that the code adds what that account stores,
    -- if the added keys are told apart and no account after it has its Starknet address.
    pub try_into_genesis_json-Stored :
        IsField F
        → All (Elsewhere F C b' account) after
        → (made : KakarotAccount F) (implementation owner kakarot key : F.Felt)
        → implementation ≢ owner
        → implementation ≢ kakarot
        → key ≢ implementation
        → key ≢ owner
        → key ≢ kakarot
        → new_account address (unwrap_or info.code []) 0 (unwrap_or info.storage []) ≡ ok made
        → C.get_storage_var_address "_implementation" [] ≡ ok implementation
        → C.get_storage_var_address "Ownable_owner" [] ≡ ok owner
        → C.get_storage_var_address "kakarot_address" [] ≡ ok kakarot
        → (address contract_account eoa : F.Felt) × (get string_dec "kakarot_address" b'.cache
            ≡ some address)
          × (get string_dec "contract_account" b'.class_hashes ≡ some contract_account)
          × (get string_dec "externally_owned_account" b'.class_hashes ≡ some eoa)
          × (contract : GenesisContract F C) × (get F.felt_eq account g.contracts ≡ some contract)
          × (storage : Map F.Felt F.Felt) × (contract.storage ≡ some storage)
          × Stored F address contract_account eoa made implementation kakarot key storage
    try_into_genesis_json-Stored L apart made implementation owner kakarot key n1 n2 n3 n4 n5
          at_made at_implementation at_owner at_kakarot =
        let (c, known, cells, at_cells, there) =
          account_there F C new_account L before after address info b' g evm account converted_alloc
            at_evm at_account apart in
        let (cached, contract_known, eoa_known) = class_hashes_of-known c known in
        (
          c.kakarot_address,
          c.contract_account,
          c.eoa,
          cached,
          contract_known,
          eoa_known,
          account_contract F C new_account c info cells,
          there,
          extend F.felt_eq cells [],
          refl,
          account_cells-Stored F C new_account c made implementation owner kakarot key n1 n2 n3 n4
              n5 address info cells at_made at_implementation at_owner at_kakarot at_cells,
        )
