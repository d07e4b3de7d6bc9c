-- ===== src/Tests/Genesis.antt =====
-- The genesis of a builder that was started.
use kakarot_rpc.Prelude.{ℕ, ◌+◌, none, some, [], ◌∷◌, length}
use kakarot_rpc.Prelude.Bytes.{to_be_bytes}
use kakarot_rpc.Prelude.Result.{ok}
use kakarot_rpc.Felt.Modular.{residue, modular}
use kakarot_rpc.TestUtils.Genesis.{GenesisCrates, KatanaGenesisBuilder, Status}
use kakarot_rpc.TestUtils.Genesis.Initialized.{Initialized}
use kakarot_rpc.TestUtils.Genesis.Reached.{Reached}

abbrev pub test_crates : GenesisCrates modular
test_crates = record {
  Artifact = ℕ;
  Account = ℕ;
  as_contract_class = λ a. none;
  compiled_class_hash = λ a. none;
  parse_legacy = λ a. some a;
  legacy_class_hash = λ a. ok (residue a);
  bytes_message = "bytes";
  dev_allocations = λ n seed. [];
  default_fee_token_address = residue 100;
  get_udc_deployed_address = λ salt class args. residue (class.0 + 1000);
  get_contract_address = λ salt class args deployer. residue (salt.0 + class.0 + deployer.0);
  get_storage_var_address = λ name keys. ok (residue (50 + length keys));
  wallet_address = λ pk. ok (to_be_bytes 20 7);
}

abbrev test_loaded : KatanaGenesisBuilder modular test_crates Status.loaded
test_loaded = record {
  coinbase = residue 0;
  classes = [];
  class_hashes =
      ("kakarot", residue 1)
      ∷ ("contract_account", residue 2)
      ∷ ("externally_owned_account", residue 3)
      ∷ ("proxy", residue 4)
      ∷ ("precompiles", residue 5)
      ∷ [];
  contracts = [];
  accounts = [];
  fee_token_storage = [];
  cache = [];
}
