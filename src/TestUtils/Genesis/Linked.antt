-- ===== src/TestUtils/Genesis/Linked.antt =====
-- An account that is added to a builder, and what stays of the builder.
use kakarot_rpc.Prelude.{ℕ, ◌%◌, ◌/◌, ◌^◌, [], ◌∷◌, ◌≡◌, ap, sym, ◌∙◌, subst}
use kakarot_rpc.Prelude.Bytes.{Bytes}
use kakarot_rpc.Prelude.Map.{get, put, Has, put-Has, get-put}
use kakarot_rpc.Prelude.Result.{ok, ok_or, unwrap}
use kakarot_rpc.Felt.{FieldElement}
use kakarot_rpc.EthProvider.Database.Reads.{>>=-eq-ok, ok_injective}
use kakarot_rpc.EthProvider.Utils.{try_u128}
use kakarot_rpc.TestUtils.Genesis.{
  GenesisCrates, GenesisContract, class_hash, eoa_class_hash, proxy_class_hash, evm_address,
  storage_of, cache_load, compute_starknet_address,
}
use kakarot_rpc.TestUtils.Genesis.Initialized.{
  Initialized, with_eoa, fund, account_linked, account_funded, eoa_contract, eoa_cells,
}
use kakarot_rpc.TestUtils.Genesis.Ready.{Ready, address_of_Ready}

module _ (F : FieldElement) (C : GenesisCrates F) where
  -- What a builder with one more account is.
  pub record Linked (pk : Bytes) (b b' : Initialized F C) : Type 0 where
    pub evm : F.Felt
    pub kakarot : F.Felt
    pub account : F.Felt
    pub key : F.Felt
    pub mapping : F.Felt
    pub eoa : GenesisContract F C
    pub contract : GenesisContract F C
    pub evm_known : evm_address F C pk ≡ ok evm
    pub account_known : compute_starknet_address F C b evm ≡ ok account
    pub result :
        account_linked F C b
          (put F.felt_eq account eoa b.contracts)
          account
          kakarot
          key
          mapping
          contract
        ≡ b'

  pub with_eoa-Linked :
      (pk : Bytes) (b b' : Initialized F C) → with_eoa F C pk b ≡ ok b' → Linked pk b b'
  unfolding with_eoa
  with_eoa-Linked pk b b' h =
      let (evm, e1, h1) = >>=-eq-ok (evm_address F C pk) _ b' h in
      let (k, e2, h2) = >>=-eq-ok (cache_load F C b "kakarot_address") _ b' h1 in
      let (c, e3, h3) = >>=-eq-ok (eoa_class_hash F C b) _ b' h2 in
      let (p, e4, h4) = >>=-eq-ok (proxy_class_hash F C b) _ b' h3 in
      let (st, e5, h5) = >>=-eq-ok (storage_of F C (eoa_cells F C evm k c)) _ b' h4 in
      let (account, e6, h6) = >>=-eq-ok (compute_starknet_address F C b evm) _ b' h5 in
      let (key, e7, h7) =
        >>=-eq-ok (C.get_storage_var_address "ERC20_allowances" (account ∷ k ∷ [])) _ b' h6 in
      let eoa = eoa_contract F C p st in
      let contracts = put F.felt_eq account eoa b.contracts in
      let (contract, e8, h8) =
        >>=-eq-ok (ok_or "Kakarot contract missing" (get F.felt_eq k contracts)) _ b' h7 in
      let (mapping, e9, h9) =
        >>=-eq-ok (C.get_storage_var_address "evm_to_starknet_address" (evm ∷ [])) _ b' h8 in
      record {
        evm = evm;
        kakarot = k;
        account = account;
        key = key;
        mapping = mapping;
        eoa = eoa;
        contract = contract;
        evm_known = e1;
        account_known = e6;
        result = ok_injective (account_linked F C b contracts account k key mapping contract) b' h9;
      }

  -- What a builder with funds for an account is.
  pub record Paid (pk : Bytes) (amount : ℕ) (b b' : Initialized F C) : Type 0 where
    pub evm : F.Felt
    pub account : F.Felt
    pub key : F.Felt
    pub low : F.Felt
    pub high : F.Felt
    pub eoa : GenesisContract F C
    pub evm_known : evm_address F C pk ≡ ok evm
    pub account_known : compute_starknet_address F C b evm ≡ ok account
    pub key_known : C.get_storage_var_address "ERC20_balances" (account ∷ []) ≡ ok key
    pub result : account_funded F C b account eoa key low high amount ≡ b'

  pub fund-Paid :
      (pk : Bytes) (amount : ℕ) (b b' : Initialized F C)
      → fund F C pk amount b ≡ ok b'
      → Paid pk amount b b'
  unfolding fund
  fund-Paid pk amount b b' h =
      let (evm, e1, h1) = >>=-eq-ok (evm_address F C pk) _ b' h in
      let (account, e2, h2) = >>=-eq-ok (compute_starknet_address F C b evm) _ b' h1 in
      let (eoa, e3, h3) =
        >>=-eq-ok (ok_or "Missing EOA contract" (get F.felt_eq account b.contracts)) _ b' h2 in
      let (key, e4, h4) =
        >>=-eq-ok (C.get_storage_var_address "ERC20_balances" (account ∷ [])) _ b' h3 in
      let (low, e5, h5) = >>=-eq-ok (unwrap (try_u128 (amount % 2 ^ 128))) _ b' h4 in
      let (high, e6, h6) = >>=-eq-ok (unwrap (try_u128 (amount / 2 ^ 128))) _ b' h5 in
      record {
        evm = evm;
        account = account;
        key = key;
        low = F.from_uint low;
        high = F.from_uint high;
        eoa = eoa;
        evm_known = e1;
        account_known = e2;
        key_known = e4;
        result =
            ok_injective
              (account_funded F C b account eoa key (F.from_uint low) (F.from_uint high) amount) b'
              h6;
      }

  module _ (b : Initialized F C) (r : Ready F C b) where
    -- Accounts added after `with_kakarot` leave the builder ready.
    pub with_eoa-Ready :
        (pk : Bytes) (b' : Initialized F C) → with_eoa F C pk b ≡ ok b' → Ready F C b'
    with_eoa-Ready pk b' h =
        let l = with_eoa-Linked pk b b' h in
        let contracts = put F.felt_eq l.account l.eoa b.contracts in
        subst (Ready F C) l.result (record {
          kakarot = r.kakarot;
          cached = r.cached;
          deployed =
              put-Has F.felt_eq l.kakarot r.kakarot _ contracts
                (put-Has F.felt_eq l.account r.kakarot _ b.contracts r.deployed);
          proxy = r.proxy;
          eoa = r.eoa;
          contract_account = r.contract_account;
        })

    -- An account that was added has a contract.
    pub with_eoa-Has :
        (pk : Bytes) (b' : Initialized F C) (evm : F.Felt)
        → with_eoa F C pk b ≡ ok b'
        → evm_address F C pk ≡ ok evm
        → Has F.felt_eq (C.get_contract_address evm r.proxy.0 [] r.kakarot) b'.contracts
    with_eoa-Has pk b' evm h known =
        let l = with_eoa-Linked pk b b' h in
        let same : l.evm ≡ evm = ok_injective l.evm evm (sym l.evm_known ∙ known) in
        let at_account : l.account ≡ C.get_contract_address evm r.proxy.0 [] r.kakarot =
          ok_injective l.account _ (sym l.account_known ∙ address_of_Ready F C b r l.evm)
          ∙ ap (λ e. C.get_contract_address e r.proxy.0 [] r.kakarot) same in
        let contracts = put F.felt_eq l.account l.eoa b.contracts in
        let there : Has F.felt_eq l.account contracts =
          (l.eoa, get-put F.felt_eq l.account l.eoa b.contracts) in
        subst
          (λ (x : Initialized F C).
            Has F.felt_eq (C.get_contract_address evm r.proxy.0 [] r.kakarot) x.contracts)
          l.result
          (put-Has F.felt_eq l.kakarot _ _ contracts
            (subst (λ a. Has F.felt_eq a contracts) at_account there))

    -- Its address is still the one that the first builder computes.
    pub with_eoa-address :
        (pk : Bytes) (b' : Initialized F C) (evm : F.Felt)
        → with_eoa F C pk b ≡ ok b'
        → compute_starknet_address F C b' evm
          ≡ ok (C.get_contract_address evm r.proxy.0 [] r.kakarot)
    unfolding compute_starknet_address cache_load class_hash
    with_eoa-address pk b' evm h =
        let l = with_eoa-Linked pk b b' h in
        let address = C.get_contract_address evm r.proxy.0 [] r.kakarot in
        subst (λ (x : Initialized F C). compute_starknet_address F C x evm ≡ ok address) l.result
          (rw (r.cached, r.proxy.1))

    pub fund-Ready :
        (pk : Bytes) (amount : ℕ) (b' : Initialized F C)
        → fund F C pk amount b ≡ ok b'
        → Ready F C b'
    fund-Ready pk amount b' h =
        let p = fund-Paid pk amount b b' h in
        subst (Ready F C) p.result (record {
          kakarot = r.kakarot;
          cached = r.cached;
          deployed = put-Has F.felt_eq p.account r.kakarot _ b.contracts r.deployed;
          proxy = r.proxy;
          eoa = r.eoa;
          contract_account = r.contract_account;
        })
