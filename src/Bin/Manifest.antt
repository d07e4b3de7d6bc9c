-- ===== src/Bin/Manifest.antt =====
-- A genesis and its manifest fit together (src/bin/katana_genesis.rs, src/bin/hive_genesis.rs).
use kakarot_rpc.Prelude.{String, some, List, [], ◌∷◌, ◌≡◌, sym, ap, ◌∙◌, subst, replicate}
use kakarot_rpc.Prelude.Bytes.{Bytes}
use kakarot_rpc.Prelude.Map.{Map, get, put, extend, Has, put-Has, get-put, string_dec}
use kakarot_rpc.Prelude.Result.{Result, ok, err, panic, ◌>>=◌, unwrap, ok_or}
use kakarot_rpc.Felt.{FieldElement}
use kakarot_rpc.EthProvider.Database.Reads.{>>=-eq-ok, ok_injective}
use kakarot_rpc.TestUtils.Genesis.{
  GenesisCrates, GenesisJson, KatanaGenesisBuilder, Status, default_builder, with_kakarot, manifest,
  cache_load, kakarot_class_hash, contract_account_class_hash, eoa_class_hash, proxy_class_hash,
  precompiles_class_hash, storage_of, kakarot_cells, kakarot_deployed, update_state,
}
use kakarot_rpc.TestUtils.Genesis.Classes.{load_classes, with_dev_allocation}
use kakarot_rpc.TestUtils.Genesis.Initialized.{Initialized, extend_storage}
use kakarot_rpc.TestUtils.Hive.{
  AccountInfo, AccountMaker, HiveGenesisConfig, try_into_genesis_json, genesis_with_accounts,
}
use kakarot_rpc.TestUtils.Hive.Deployed.{genesis_with_accounts-Made}
use kakarot_rpc.Bin.Genesis.{Written, expect, hive_genesis}

pub expect-eq-ok {ℓ κ} :
    {E : Type ℓ} {A : Type κ} (r : Result E A) (a : A) → expect r ≡ ok a → r ≡ ok a
expect-eq-ok (ok x) a h = h
expect-eq-ok (err e) a h = cc
expect-eq-ok panic a h = cc

module _ (F : FieldElement) (C : GenesisCrates F) where
  extend-Has :
      {V : Type 0} (es m : Map F.Felt V) (k : F.Felt)
      → Has F.felt_eq k m
      → Has F.felt_eq k (extend F.felt_eq es m)
  extend-Has [] m k h = h
  extend-Has (e ∷ es) m k h =
      extend-Has es (put F.felt_eq e.0 e.1 m) k (put-Has F.felt_eq e.0 k e.1 m h)

  abbrev udc_address : F.Felt → F.Felt → F.Felt → F.Felt → F.Felt → F.Felt → F.Felt
  udc_address salt kakarot_class account_class eoa_class proxy_class precompiles_class =
      C.get_udc_deployed_address salt kakarot_class (
        F.zero_felt
        ∷ C.default_fee_token_address
        ∷ account_class
        ∷ eoa_class
        ∷ proxy_class
        ∷ precompiles_class
        ∷ F.from_uint 20_000_000
        ∷ [])

  -- Where the Kakarot contract is deployed: it depends on the classes alone.
  kakarot_address_of : KatanaGenesisBuilder F C Status.loaded → Result String F.Felt
  kakarot_address_of b = do
    kakarot_class ← kakarot_class_hash F C b
    account_class ← contract_account_class_hash F C b
    eoa_class ← eoa_class_hash F C b
    proxy_class ← proxy_class_hash F C b
    precompiles_class ← precompiles_class_hash F C b
    salt ← unwrap (F.from_bytes_be (replicate 32 0))
    ok (udc_address salt kakarot_class account_class eoa_class proxy_class precompiles_class)

  kakarot_address_known :
      (b : KatanaGenesisBuilder F C Status.loaded) (k a e p c s : F.Felt)
      → kakarot_class_hash F C b ≡ ok k
      → contract_account_class_hash F C b ≡ ok a
      → eoa_class_hash F C b ≡ ok e
      → proxy_class_hash F C b ≡ ok p
      → precompiles_class_hash F C b ≡ ok c
      → ◌≡◌ {A = Result String F.Felt} (unwrap (F.from_bytes_be (replicate 32 0))) (ok s)
      → kakarot_address_of b ≡ ok (udc_address s k a e p c)
  unfolding kakarot_address_of
  kakarot_address_known b k a e p c s ek ea ee ep ec es = rw (ek, ea, ee, ep, ec, es)

  with_kakarot-address :
      (coinbase : F.Felt) (b : KatanaGenesisBuilder F C Status.loaded)
      (b' : KatanaGenesisBuilder F C Status.initialized)
      → with_kakarot F C coinbase b ≡ ok b'
      → (k : F.Felt) × (kakarot_address_of b ≡ ok k)
        × (get string_dec "kakarot_address" b'.cache ≡ some k)
  unfolding with_kakarot kakarot_deployed update_state
  with_kakarot-address coinbase b b' h =
      let (k, ek, h1) = >>=-eq-ok (kakarot_class_hash F C b) _ b' h in
      let (a, ea, h2) = >>=-eq-ok (contract_account_class_hash F C b) _ b' h1 in
      let (e, ee, h3) = >>=-eq-ok (eoa_class_hash F C b) _ b' h2 in
      let (p, ep, h4) = >>=-eq-ok (proxy_class_hash F C b) _ b' h3 in
      let (c, ec, h5) = >>=-eq-ok (precompiles_class_hash F C b) _ b' h4 in
      let (s, es, h6) = >>=-eq-ok (unwrap (F.from_bytes_be (replicate 32 0))) _ b' h5 in
      let (st, est, h7) = >>=-eq-ok (storage_of F C (kakarot_cells F C a e p c coinbase)) _ b' h6 in
      let address = udc_address s k a e p c in
      (
        address,
        kakarot_address_known b k a e p c s ek ea ee ep ec es,
        subst
            (λ (x : KatanaGenesisBuilder F C Status.initialized).
              get string_dec "kakarot_address" x.cache ≡ some address)
            (ok_injective (kakarot_deployed F C b address k st coinbase) b' h7)
            (get-put string_dec "kakarot_address" address b.cache),
      )

  put-Has_at :
      {V : Type 0} (j k : F.Felt) (v : V) (m : Map F.Felt V)
      → j ≡ k
      → Has F.felt_eq k (put F.felt_eq j v m)
  put-Has_at j k v m e =
      (v, ap (λ i. get F.felt_eq i (put F.felt_eq j v m)) (sym e) ∙ get-put F.felt_eq j v m)

  with_gathered-Has :
      (new_account : AccountMaker F) (alloc : List (Bytes × AccountInfo)) (b : Initialized F C)
      (g : GenesisJson F C) (k : F.Felt)
      → genesis_with_accounts F C new_account alloc b ≡ ok g
      → get string_dec "kakarot_address" b.cache ≡ some k
      → Has F.felt_eq k g.contracts
  unfolding cache_load
  with_gathered-Has new_account alloc b g k h cached =
      let m = genesis_with_accounts-Made F C new_account alloc b g h in
      let known : cache_load F C b "kakarot_address" ≡ ok k = rw cached in
      let same : m.hashes.kakarot_address ≡ k =
        ok_injective m.hashes.kakarot_address k (sym m.kakarot_known ∙ known) in
      subst (λ (x : GenesisJson F C). Has F.felt_eq k x.contracts) m.result
        (extend-Has m.walk.contracts _ k (
          put-Has_at m.hashes.kakarot_address k
            (extend_storage F C m.walk.kakarot_storage m.kakarot) m.built.contracts same))

  -- The manifest of a Hive genesis names the Kakarot contract by the address at which the genesis
  -- has it, although the two come from builders with different coinbases.
  pub hive_genesis-fits :
      (new_account : AccountMaker F) (files : List (String × C.Artifact)) (h : HiveGenesisConfig)
      (w : Written F C)
      → hive_genesis F C new_account files h ≡ ok w
      → (k : F.Felt) × (get string_dec "kakarot_address" w.manifest.deployments ≡ some k)
        × Has F.felt_eq k w.genesis.contracts
  unfolding hive_genesis try_into_genesis_json manifest
  hive_genesis-fits new_account files h w made =
      let (b0, e0, h0) = >>=-eq-ok (load_classes F C files (default_builder F C)) _ w made in
      let b1 = with_dev_allocation F C 10 b0 in
      let (g, e1, h1) = >>=-eq-ok (expect (try_into_genesis_json F C new_account h b1)) _ w h0 in
      let (b2, e2, h2) = >>=-eq-ok (expect (with_kakarot F C F.zero_felt b1)) _ w h1 in
      let (coinbase, e3, h3) =
        >>=-eq-ok (ok_or C.bytes_message (F.from_byte_slice_be h.coinbase)) _ g
          (expect-eq-ok (try_into_genesis_json F C new_account h b1) g e1) in
      let (b', e4, h4) = >>=-eq-ok (with_kakarot F C coinbase b1) _ g h3 in
      let (k, at_k, cached) = with_kakarot-address coinbase b1 b' e4 in
      let (j, at_j, named) =
        with_kakarot-address F.zero_felt b1 b2
          (expect-eq-ok (with_kakarot F C F.zero_felt b1) b2 e2) in
      let same : j ≡ k = ok_injective j k (sym at_j ∙ at_k) in
      subst
        (λ (x : Written F C).
          (i : F.Felt) × (get string_dec "kakarot_address" x.manifest.deployments ≡ some i)
          × Has F.felt_eq i x.genesis.contracts)
        (ok_injective (record { genesis = g; manifest = manifest F C b2 }) w h2)
        (k, named ∙ ap some same, with_gathered-Has new_account h.alloc b' g k h4 cached)
