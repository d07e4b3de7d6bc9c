-- ===== src/TestUtils/Genesis/Ready.antt =====
-- What every initialized builder has, from `with_kakarot` on.
use kakarot_rpc.Prelude.{some, [], ◌≡◌, refl, subst, replicate}
use kakarot_rpc.Prelude.Map.{Map, get, Has, get-put, string_dec}
use kakarot_rpc.Prelude.Result.{ok, unwrap}
use kakarot_rpc.Felt.{FieldElement}
use kakarot_rpc.EthProvider.Database.Reads.{>>=-eq-ok, ok_injective, ok_or-eq-ok}
use kakarot_rpc.TestUtils.Genesis.{
  GenesisCrates, GenesisJson, KatanaGenesisBuilder, Status, class_hash, kakarot_class_hash,
  contract_account_class_hash, eoa_class_hash, proxy_class_hash, precompiles_class_hash, storage_of,
  kakarot_cells, kakarot_deployed, with_kakarot, update_state, cache_load, compute_starknet_address,
}
use kakarot_rpc.TestUtils.Genesis.Initialized.{Initialized, build, genesis_of}

module _ (F : FieldElement) (C : GenesisCrates F) where
  -- What every step of an initialized builder relies on.
  pub record Ready (b : Initialized F C) : Type 0 where
    pub kakarot : F.Felt
    pub cached : get string_dec "kakarot_address" b.cache ≡ some kakarot
    pub deployed : Has F.felt_eq kakarot b.contracts
    pub proxy : Has string_dec "proxy" b.class_hashes
    pub eoa : Has string_dec "externally_owned_account" b.class_hashes
    pub contract_account : Has string_dec "contract_account" b.class_hashes

  kakarot_deployed-Ready :
      (b : KatanaGenesisBuilder F C Status.loaded) (address class : F.Felt)
      (storage : Map F.Felt F.Felt) (coinbase proxy eoa contract_account : F.Felt)
      → proxy_class_hash F C b ≡ ok proxy
      → eoa_class_hash F C b ≡ ok eoa
      → contract_account_class_hash F C b ≡ ok contract_account
      → Ready (kakarot_deployed F C b address class storage coinbase)
  unfolding kakarot_deployed update_state class_hash
  kakarot_deployed-Ready b address class storage coinbase proxy eoa contract_account h he ha =
      record {
        kakarot = address;
        cached = get-put string_dec "kakarot_address" address b.cache;
        deployed = (_, get-put F.felt_eq address _ b.contracts);
        proxy = (proxy, ok_or-eq-ok "Missing proxy class hash" _ proxy h);
        eoa = (eoa, ok_or-eq-ok "Missing eoa account class hash" _ eoa he);
        contract_account = (
          contract_account,
          ok_or-eq-ok "Missing contract account class hash" _ contract_account ha,
        );
      }

  -- `with_kakarot` makes a builder ready.
  pub with_kakarot-Ready :
      (coinbase : F.Felt) (b : KatanaGenesisBuilder F C Status.loaded) (b' : Initialized F C)
      → with_kakarot F C coinbase b ≡ ok b'
      → Ready b'
  unfolding with_kakarot
  with_kakarot-Ready coinbase b b' h =
      let (k, ek, h1) = >>=-eq-ok (kakarot_class_hash F C b) _ b' h in
      let (a, ea, h2) = >>=-eq-ok (contract_account_class_hash F C b) _ b' h1 in
      let (e, ee, h3) = >>=-eq-ok (eoa_class_hash F C b) _ b' h2 in
      let (p, ep, h4) = >>=-eq-ok (proxy_class_hash F C b) _ b' h3 in
      let (c, ec, h5) = >>=-eq-ok (precompiles_class_hash F C b) _ b' h4 in
      let (s, es, h6) = >>=-eq-ok (unwrap (F.from_bytes_be (replicate 32 0))) _ b' h5 in
      let (st, est, h7) = >>=-eq-ok (storage_of F C (kakarot_cells F C a e p c coinbase)) _ b' h6 in
      subst Ready (ok_injective (kakarot_deployed F C b _ k st coinbase) b' h7)
        (kakarot_deployed-Ready b _ k st coinbase p e a ep ee ea)

  -- The address of an account can be computed.
  pub address_of_Ready :
      (b : Initialized F C) (r : Ready b) (evm : F.Felt)
      → compute_starknet_address F C b evm ≡ ok (C.get_contract_address evm r.proxy.0 [] r.kakarot)
  unfolding compute_starknet_address cache_load class_hash
  address_of_Ready b r evm = rw (r.cached, r.proxy.1)

  -- A genesis can be built of a ready builder: its sequencer is the account of the coinbase, and
  -- it has the contracts and the fee token storage of the builder.
  pub build-Ready :
      (b : Initialized F C) (r : Ready b)
      → (g : GenesisJson F C) × (build F C b ≡ ok g)
        × (g.sequencer_address ≡ C.get_contract_address b.coinbase r.proxy.0 [] r.kakarot)
        × (g.contracts ≡ b.contracts)
        × (g.fee_token_storage ≡ b.fee_token_storage)
  unfolding build
  build-Ready b r = (
    genesis_of F C b (C.get_contract_address b.coinbase r.proxy.0 [] r.kakarot),
    rw (address_of_Ready b r b.coinbase),
    refl,
    refl,
    refl,
  )
