-- ===== src/Bin/Genesis.antt =====
-- src/bin/katana_genesis.rs and src/bin/hive_genesis.rs: a genesis and its manifest.
use kakarot_rpc.Prelude.{◌-◌, ◌^◌, String, List}
use kakarot_rpc.Prelude.Bytes.{Bytes}
use kakarot_rpc.Prelude.Result.{Result, ok, err, panic, ◌>>=◌}
use kakarot_rpc.Felt.{FieldElement}
use kakarot_rpc.TestUtils.Genesis.{
  GenesisCrates, GenesisJson, KatanaManifest, default_builder, with_kakarot, manifest,
}
use kakarot_rpc.TestUtils.Genesis.Classes.{load_classes, with_dev_allocation}
use kakarot_rpc.TestUtils.Genesis.Initialized.{with_eoa, fund, build}
use kakarot_rpc.TestUtils.Hive.{AccountMaker, HiveGenesisConfig, try_into_genesis_json}

-- `Result::expect` and `Result::unwrap`
abbrev pub expect {ℓ κ} : {E : Type ℓ} {A : Type κ} → Result E A → Result E A
expect (ok a) = ok a
expect (err e) = panic
expect panic = panic

module _ (F : FieldElement) (C : GenesisCrates F) where
  -- What is written to the two files.
  pub record Written : Type 0 where
    pub genesis : GenesisJson F C
    pub manifest : KatanaManifest F C

  abbrev pub coinbase_address : F.Felt
  coinbase_address = F.from_uint 0x12345

  -- `main` of src/bin/katana_genesis.rs
  unfoldable pub katana_genesis : List (String × C.Artifact) → Bytes → Result String Written
  katana_genesis files pk = do
    b0 ← load_classes F C files (default_builder F C)
    b1 ← expect (with_kakarot F C coinbase_address b0)
    b2 ← expect (with_eoa F C pk b1)
    b3 ← expect (fund F C pk (2 ^ 128 - 1) b2)
    let b4 = with_dev_allocation F C 10 b3
    genesis ← expect (build F C b4)
    ok (record { genesis = genesis; manifest = manifest F C b4 })

  -- `main` of src/bin/hive_genesis.rs; the builder is cloned, so both conversions start from it.
  unfoldable pub hive_genesis :
      AccountMaker F → List (String × C.Artifact) → HiveGenesisConfig → Result String Written
  hive_genesis new_account files h = do
    b0 ← load_classes F C files (default_builder F C)
    let b1 = with_dev_allocation F C 10 b0
    genesis ← expect (try_into_genesis_json F C new_account h b1)
    b2 ← expect (with_kakarot F C F.zero_felt b1)
    ok (record { genesis = genesis; manifest = manifest F C b2 })
