-- ===== src/Bin/Prefunded.antt =====
-- The account that src/bin/katana_genesis.rs gives funds.
use kakarot_rpc.Prelude.{
  ℕ, ◌+◌, ◌-◌, ◌*◌, ◌^◌, ◌<◌, String, some, List, [], ◌∷◌, ◌≡◌, sym, ap, ◌∙◌, subst, arith,
}
use kakarot_rpc.Prelude.Bytes.{Bytes}
use kakarot_rpc.Prelude.Map.{get, Has, string_dec}
use kakarot_rpc.Prelude.Result.{ok}
use kakarot_rpc.Felt.{FieldElement, IsField}
use kakarot_rpc.EthProvider.Database.Reads.{>>=-eq-ok, ok_injective}
use kakarot_rpc.TestUtils.Genesis.{
  GenesisCrates, GenesisContract, GenesisJson, default_builder, with_kakarot, manifest, evm_address,
}
use kakarot_rpc.TestUtils.Genesis.Classes.{load_classes, with_dev_allocation}
use kakarot_rpc.TestUtils.Genesis.Initialized.{Initialized, with_eoa, fund, build}
use kakarot_rpc.TestUtils.Genesis.Ready.{Ready, with_kakarot-Ready, build-Ready}
use kakarot_rpc.TestUtils.Genesis.Linked.{
  with_eoa-Linked, with_eoa-Ready, with_eoa-address, fund-Ready, fund-Paid,
}
use kakarot_rpc.TestUtils.Genesis.Funds.{Funded, fund-with_eoa}
use kakarot_rpc.TestUtils.Hive.Contracts.{some_injective}
use kakarot_rpc.Bin.Genesis.{Written, expect, coinbase_address, katana_genesis}
use kakarot_rpc.Bin.Manifest.{expect-eq-ok}

module _ (F : FieldElement) (L : IsField F) (C : GenesisCrates F) where
  open L use {value}

  -- What the two files say of the account of a private key.
  pub record Prefunded (pk : Bytes) (amount : ℕ) (w : Written F C) : Type 0 where
    pub kakarot : F.Felt
    pub proxy : F.Felt
    pub evm : F.Felt
    pub key : F.Felt
    pub contract : GenesisContract F C
    pub low : F.Felt
    pub high : F.Felt
    pub named : get string_dec "kakarot_address" w.manifest.deployments ≡ some kakarot
    pub declared : get string_dec "proxy" w.manifest.declarations ≡ some proxy
    pub deployed : Has F.felt_eq kakarot w.genesis.contracts
    pub evm_known : evm_address F C pk ≡ ok evm
    pub there :
        get F.felt_eq (C.get_contract_address evm proxy [] kakarot) w.genesis.contracts
        ≡ some contract
    pub balance : contract.balance ≡ some amount
    pub key_known :
        C.get_storage_var_address "ERC20_balances"
          (C.get_contract_address evm proxy [] kakarot ∷ [])
        ≡ ok key
    pub low_cell : get F.felt_eq key w.genesis.fee_token_storage ≡ some low
    pub high_cell : get F.felt_eq (F.add key F.one_felt) w.genesis.fee_token_storage ≡ some high
    pub halves : value low + value high * 2 ^ 128 ≡ amount

  -- The builder after an account was added and given funds: its caches, and the account.
  module _ (b : Initialized F C) (r : Ready F C b) (pk : Bytes) (amount : ℕ)
      (fits : amount < 2 ^ 256) (b' b'' : Initialized F C) (added : with_eoa F C pk b ≡ ok b')
      (paid : fund F C pk amount b' ≡ ok b'') where
    caches_kept : (b''.cache ≡ b.cache) × (b''.class_hashes ≡ b.class_hashes)
    caches_kept =
        let l = with_eoa-Linked F C pk b b' added in
        let p = fund-Paid F C pk amount b' b'' paid in
        (
          sym (ap (λ (x : Initialized F C). x.cache) p.result)
              ∙ sym (ap (λ (x : Initialized F C). x.cache) l.result),
          sym (ap (λ (x : Initialized F C). x.class_hashes) p.result)
              ∙ sym (ap (λ (x : Initialized F C). x.class_hashes) l.result),
        )

    account_paid :
        (evm key : F.Felt) × (evm_address F C pk ≡ ok evm)
        × (C.get_storage_var_address "ERC20_balances"
              (C.get_contract_address evm r.proxy.0 [] r.kakarot ∷ [])
            ≡ ok key)
        × Funded F L C (C.get_contract_address evm r.proxy.0 [] r.kakarot) key amount b''
    account_paid =
        let p = fund-Paid F C pk amount b' b'' paid in
        let address = C.get_contract_address p.evm r.proxy.0 [] r.kakarot in
        let same : p.account ≡ address =
          ok_injective p.account address
            (sym p.account_known ∙ with_eoa-address F C b r pk b' p.evm added) in
        let at_key : C.get_storage_var_address "ERC20_balances" (address ∷ []) ≡ ok p.key =
          ap (λ a. C.get_storage_var_address "ERC20_balances" (a ∷ [])) (sym same) ∙ p.key_known in
        let (made, again, funds) =
          fund-with_eoa F L C b r pk b' p.evm p.key amount added p.evm_known at_key fits in
        (
          p.evm,
          p.key,
          p.evm_known,
          at_key,
          subst (Funded F L C address p.key amount) (ok_injective made b'' (sym again ∙ paid))
              funds,
        )

    written-Prefunded :
        (g : GenesisJson F C)
        → build F C (with_dev_allocation F C 10 b'') ≡ ok g
        → Prefunded pk amount
            (record { genesis = g; manifest = manifest F C (with_dev_allocation F C 10 b'') })
    unfolding manifest with_dev_allocation
    written-Prefunded g built =
        let last = with_dev_allocation F C 10 b'' in
        let r' = fund-Ready F C b' (with_eoa-Ready F C b r pk b' added) pk amount b'' paid in
        let ready : Ready F C last = record {
          kakarot = r'.kakarot;
          cached = r'.cached;
          deployed = r'.deployed;
          proxy = r'.proxy;
          eoa = r'.eoa;
          contract_account = r'.contract_account;
        } in
        let (g', again, _, contracts, cells) = build-Ready F C last ready in
        let same : g' ≡ g = ok_injective g' g (sym again ∙ built) in
        let all : g.contracts ≡ b''.contracts =
          sym (ap (λ (x : GenesisJson F C). x.contracts) same) ∙ contracts in
        let storage : g.fee_token_storage ≡ b''.fee_token_storage =
          sym (ap (λ (x : GenesisJson F C). x.fee_token_storage) same) ∙ cells in
        let (evm, key, evm_known, key_known, funds) = account_paid in
        let (cache, classes) = caches_kept in
        let named : get string_dec "kakarot_address" b''.cache ≡ some r.kakarot =
          ap (λ m. get string_dec "kakarot_address" m) cache ∙ r.cached in
        let one : r'.kakarot ≡ r.kakarot =
          some_injective r'.kakarot r.kakarot (sym r'.cached ∙ named) in
        record {
          kakarot = r.kakarot;
          proxy = r.proxy.0;
          evm = evm;
          key = key;
          contract = funds.contract;
          low = funds.low;
          high = funds.high;
          named = named;
          declared = ap (λ m. get string_dec "proxy" m) classes ∙ r.proxy.1;
          deployed =
              subst (λ k. Has F.felt_eq k g.contracts) one
                (subst (Has F.felt_eq r'.kakarot) (sym all) r'.deployed);
          evm_known = evm_known;
          there =
              ap (get F.felt_eq (C.get_contract_address evm r.proxy.0 [] r.kakarot)) all
              ∙ funds.there;
          balance = funds.balance;
          key_known = key_known;
          low_cell = ap (get F.felt_eq key) storage ∙ funds.low_cell;
          high_cell = ap (get F.felt_eq (F.add key F.one_felt)) storage ∙ funds.high_cell;
          halves = funds.halves;
        }

  -- What `katana_genesis` writes fits together: the manifest names the Kakarot contract by an
  -- address at which the genesis has it, and the contract of the account of the private key, at the
  -- address that the classes and that contract give it, has 2^128 - 1 as its balance, and in the
  -- storage of the fee token too, in halves of 128 bits.
  pub katana_genesis-Prefunded :
      (files : List (String × C.Artifact)) (pk : Bytes) (w : Written F C)
      → katana_genesis F C files pk ≡ ok w
      → Prefunded pk (2 ^ 128 - 1) w
  unfolding katana_genesis
  katana_genesis-Prefunded files pk w made =
      let (b0, e0, h0) = >>=-eq-ok (load_classes F C files (default_builder F C)) _ w made in
      let (b1, e1, h1) = >>=-eq-ok (expect (with_kakarot F C (coinbase_address F C) b0)) _ w h0 in
      let (b2, e2, h2) = >>=-eq-ok (expect (with_eoa F C pk b1)) _ w h1 in
      let (b3, e3, h3) = >>=-eq-ok (expect (fund F C pk (2 ^ 128 - 1) b2)) _ w h2 in
      let b4 = with_dev_allocation F C 10 b3 in
      let (g, e4, h4) = >>=-eq-ok (expect (build F C b4)) _ w h3 in
      let ready =
        with_kakarot-Ready F C (coinbase_address F C) b0 b1
          (expect-eq-ok (with_kakarot F C (coinbase_address F C) b0) b1 e1) in
      subst (Prefunded pk (2 ^ 128 - 1))
        (ok_injective (record { genesis = g; manifest = manifest F C b4 }) w h4)
        (written-Prefunded b1 ready pk (2 ^ 128 - 1) (omega arith) b2 b3
          (expect-eq-ok (with_eoa F C pk b1) b2 e2)
          (expect-eq-ok (fund F C pk (2 ^ 128 - 1) b2) b3 e3) g (expect-eq-ok (build F C b4) g e4))
