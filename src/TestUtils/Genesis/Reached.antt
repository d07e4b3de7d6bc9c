-- ===== src/TestUtils/Genesis/Reached.antt =====
-- The builders that the operations of src/test_utils/katana/genesis.rs reach.
use kakarot_rpc.Prelude.{ℕ, ◌≡◌}
use kakarot_rpc.Prelude.Bytes.{Bytes}
use kakarot_rpc.Prelude.Result.{ok}
use kakarot_rpc.Felt.{FieldElement}
use kakarot_rpc.TestUtils.Genesis.{GenesisCrates, KatanaGenesisBuilder, Status, with_kakarot}
use kakarot_rpc.TestUtils.Genesis.Initialized.{Initialized, with_eoa, fund}
use kakarot_rpc.TestUtils.Genesis.Ready.{Ready}

module _ (F : FieldElement) (C : GenesisCrates F) where
  -- The builders that the operations reach from a loaded one.
  pub data Reached : Initialized F C → Type 0 where
    started :
        (coinbase : F.Felt) (b : KatanaGenesisBuilder F C Status.loaded) (b' : Initialized F C)
        → with_kakarot F C coinbase b ≡ ok b'
        → Reached b'
    eoa_added :
        (pk : Bytes) (b b' : Initialized F C) → Reached b → with_eoa F C pk b ≡ ok b' → Reached b'
    funded :
        (pk : Bytes) (amount : ℕ) (b b' : Initialized F C)
        → Reached b
        → fund F C pk amount b ≡ ok b'
        → Reached b'
