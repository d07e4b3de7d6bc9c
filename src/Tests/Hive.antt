-- ===== src/Tests/Hive.antt =====
-- A Hive genesis with two accounts, and its conversion.
use text.Mathlib.Text.{◌==◌ as str_eq}
use kakarot_rpc.Prelude.{
  ℕ, ◌+◌, ◌^◌, String, some, none, List, [], ◌∷◌, ◌≡◌, ◌≢◌, refl, sym, ap, ◌∙◌, arith, dec_lt,
  ℕ_discrete, if◌then◌else◌,
}
use kakarot_rpc.Prelude.Int.{pos}
use kakarot_rpc.Prelude.Bytes.{Bytes, to_be_bytes}
use kakarot_rpc.Prelude.Map.{string_dec, Map, get}
use kakarot_rpc.Prelude.Result.{ok}
use kakarot_rpc.Felt.Modular.{Residue, residue, modular, modular-IsField}
use kakarot_rpc.TestUtils.Genesis.{
  GenesisCrates, GenesisContract, GenesisJson, KatanaGenesisBuilder, Status, with_kakarot,
  cache_load, compute_starknet_address,
}
use kakarot_rpc.TestUtils.Genesis.Initialized.{Initialized, build}
use kakarot_rpc.TestUtils.Hive.{
  AccountInfo, AccountMaker, AccountType, HiveGenesisConfig, KakarotAccount, genesis_with_accounts,
  convert_accounts, convert_account, account_cells, implementation_cells, try_into_genesis_json,
}
use kakarot_rpc.TestUtils.Hive.Contracts.{Elsewhere, Unmapped, some_injective}
use kakarot_rpc.EthProvider.Database.Reads.{ok_injective}
use kakarot_rpc.TestUtils.Hive.Deployed.{Deployed, Mapped}
use kakarot_rpc.TestUtils.Hive.Storage.{Stored}
use kakarot_rpc.TestUtils.Hive.Outcome.{
  try_into_genesis_json-Deployed, try_into_genesis_json-Mapped, try_into_genesis_json-Stored,
}
use kakarot_rpc.TestUtils.Hive.Total.{try_into_genesis_json_total}
use kakarot_rpc.Tests.Genesis.{test_crates}

-- Names are told apart, and keys are added to them.
abbrev name_number : String → ℕ
name_number name =
    if str_eq name "_implementation"
    then 10_000
    else if str_eq name "Ownable_owner"
    then 20_000
    else if str_eq name "kakarot_address"
    then 30_000
    else if str_eq name "evm_to_starknet_address"
    then 40_000
    else 50_000

abbrev key_sum : List Residue → ℕ
key_sum [] = 0
key_sum (k ∷ ks) = k.0 + key_sum ks

abbrev pub hive_crates : GenesisCrates modular
hive_crates = record test_crates {
  get_storage_var_address = λ name keys. ok (residue (name_number name + key_sum keys));
}

-- An account with code is a contract with one cell.
abbrev account_of : Bytes → KakarotAccount modular
account_of [] = record { account_type = AccountType.eoa; storage = [] }
account_of (b ∷ code) = record {
  account_type = AccountType.contract;
  storage = (residue 77, residue 78) ∷ [];
}

abbrev pub test_maker : AccountMaker modular
test_maker = λ address code nonce storage. ok (account_of code)

abbrev pub address_of : ℕ → Bytes
address_of = to_be_bytes 20

abbrev first_info : AccountInfo
first_info = record { balance = 2 ^ 200 + 3; code = some (96 ∷ []); storage = none }

abbrev second_info : AccountInfo
second_info = record { balance = 5; code = none; storage = none }

abbrev pub test_hive : HiveGenesisConfig
test_hive = record {
  config = record {
    chain_id = pos 1;
    homestead_block = pos 0;
    eip150_block = pos 0;
    eip150_hash = none;
    eip155_block = pos 0;
    eip158_block = pos 0;
  };
  coinbase = address_of 3;
  difficulty = 1;
  extra_data = [];
  gas_limit = 100;
  nonce = 0;
  timestamp = 0;
  alloc = (address_of 7, first_info) ∷ (address_of 8, second_info) ∷ [];
}

abbrev hive_loaded : KatanaGenesisBuilder modular hive_crates Status.loaded
hive_loaded = record {
  coinbase = residue 0;
  classes = [];
  class_hashes =
      ("kakarot", residue 1)
      ∷ ("contract_account", residue 2)
      ∷ ("externally_owned_account", residue 3)
      ∷ ("proxy", residue 4)
      ∷ ("precompiles", residue 5)
      ∷ [];
  contracts = [];
  accounts = [];
  fee_token_storage = [];
  cache = [];
}

known_coinbase : (f : Residue) × (modular.from_byte_slice_be test_hive.coinbase ≡ some f)
unfolding dec_lt
known_coinbase = (_, refl)

hive_started :
    (b : Initialized modular hive_crates) × (with_kakarot modular hive_crates known_coinbase.0
        hive_loaded
      ≡ ok b)
unfolding with_kakarot dec_lt known_coinbase
hive_started = (_, refl)

hive_converted :
    (g : GenesisJson modular hive_crates) × (try_into_genesis_json modular hive_crates test_maker
        test_hive hive_loaded
      ≡ ok g)
unfolding try_into_genesis_json dec_lt ℕ_discrete with_kakarot genesis_with_accounts cache_load
    convert_accounts convert_account compute_starknet_address account_cells implementation_cells
    build
hive_converted = (_, refl)

known_evm : (f : Residue) × (modular.from_byte_slice_be (address_of 7) ≡ some f)
unfolding dec_lt
known_evm = (_, refl)

known_account :
    (a : Residue) × (compute_starknet_address modular hive_crates hive_started.0 known_evm.0 ≡ ok a)
unfolding compute_starknet_address hive_started known_evm dec_lt ℕ_discrete known_coinbase
    cache_load
known_account = (_, refl)

known_second : (f : Residue) × (modular.from_byte_slice_be (address_of 8) ≡ some f)
unfolding dec_lt
known_second = (_, refl)

known_second_account :
    (a : Residue) × (compute_starknet_address modular hive_crates hive_started.0 known_second.0
      ≡ ok a)
unfolding compute_starknet_address hive_started known_second dec_lt ℕ_discrete known_coinbase
    cache_load
known_second_account = (_, refl)

Elsewhere-of :
    (account : Residue) (entry : Bytes × AccountInfo) (evm a : Residue)
    → modular.from_byte_slice_be entry.0 ≡ some evm
    → compute_starknet_address modular hive_crates hive_started.0 evm ≡ ok a
    → a ≢ account
    → Elsewhere modular hive_crates hive_started.0 account entry
Elsewhere-of account entry evm a e k n evm' a' e' k' same =
    let evms : evm ≡ evm' = some_injective evm evm' (sym e ∙ e') in
    let accounts : a ≡ a' =
      ok_injective a a'
        (sym k ∙ ap (compute_starknet_address modular hive_crates hive_started.0) evms ∙ k') in
    n (accounts ∙ same)

differ : (a b : Residue) → a.0 ≢ b.0 → a ≢ b
differ a b n e = n (ap (λ (r : Residue). r.0) e)

second-Elsewhere :
    Elsewhere modular hive_crates hive_started.0 known_account.0 (address_of 8, second_info)
unfolding known_account known_second_account dec_lt compute_starknet_address hive_started
    known_second ℕ_discrete known_coinbase cache_load
second-Elsewhere =
    Elsewhere-of known_account.0 (address_of 8, second_info) known_second.0 known_second_account.0
      known_second.1 known_second_account.1
      (differ known_second_account.0 known_account.0 (λ e. absurd (omega (arith, e))))

try_into_genesis_json-Deployed_example :
    Deployed modular hive_crates hive_started.0 first_info known_account.0 hive_converted.0
try_into_genesis_json-Deployed_example =
    try_into_genesis_json-Deployed modular hive_crates test_maker test_hive hive_loaded
      hive_started.0 known_coinbase.0 known_coinbase.1 hive_started.1 []
      ((address_of 8, second_info) ∷ []) (address_of 7) first_info refl hive_converted.0
      hive_converted.1 known_evm.0 known_account.0 known_evm.1 known_account.1 modular-IsField
      (omega arith) (second-Elsewhere, tt)

known_kakarot :
    (k : Residue) × (cache_load modular hive_crates hive_started.0 "kakarot_address" ≡ ok k)
unfolding cache_load hive_started known_coinbase dec_lt ℕ_discrete with_kakarot
known_kakarot = (_, refl)

key_of :
    (name : String) (keys : List Residue) (k : Residue)
    → hive_crates.get_storage_var_address name keys ≡ ok k
    → residue (name_number name + key_sum keys) ≡ k
key_of name keys k h = ok_injective (residue (name_number name + key_sum keys)) k h

known_mapping :
    (m : Residue) × (hive_crates.get_storage_var_address "evm_to_starknet_address"
        (known_evm.0 ∷ [])
      ≡ ok m)
known_mapping = (_, refl)

second-Unmapped : Unmapped modular hive_crates known_mapping.0 (address_of 8, second_info)
unfolding known_mapping known_evm known_second dec_lt
second-Unmapped evm key e k same =
    let evms : known_second.0 ≡ evm = some_injective known_second.0 evm (sym known_second.1 ∙ e) in
    let keys : residue (40_000 + (evm.0 + 0)) ≡ known_mapping.0 =
      key_of "evm_to_starknet_address" (evm ∷ []) key k ∙ same in
    let number : residue (40_000 + (8 + 0)) ≡ known_mapping.0 =
      ap (λ (r : Residue). residue (40_000 + (r.0 + 0))) evms ∙ keys in
    differ (residue (40_000 + (8 + 0))) known_mapping.0 (λ q. absurd (omega (arith, q))) number

first_not_kakarot :
    Elsewhere modular hive_crates hive_started.0 known_kakarot.0 (address_of 7, first_info)
unfolding known_account known_kakarot dec_lt compute_starknet_address hive_started known_evm
    ℕ_discrete known_coinbase cache_load
first_not_kakarot =
    Elsewhere-of known_kakarot.0 (address_of 7, first_info) known_evm.0 known_account.0 known_evm.1
      known_account.1 (differ known_account.0 known_kakarot.0 (λ e. absurd (omega (arith, e))))

second_not_kakarot :
    Elsewhere modular hive_crates hive_started.0 known_kakarot.0 (address_of 8, second_info)
unfolding known_second_account known_kakarot dec_lt compute_starknet_address hive_started
    known_second ℕ_discrete known_coinbase cache_load
second_not_kakarot =
    Elsewhere-of known_kakarot.0 (address_of 8, second_info) known_second.0 known_second_account.0
      known_second.1 known_second_account.1
      (differ known_second_account.0 known_kakarot.0 (λ e. absurd (omega (arith, e))))

try_into_genesis_json-Mapped_example :
    Mapped modular hive_crates known_kakarot.0 known_mapping.0 known_account.0 hive_converted.0
try_into_genesis_json-Mapped_example =
    try_into_genesis_json-Mapped modular hive_crates test_maker test_hive hive_loaded hive_started.0
      known_coinbase.0 known_coinbase.1 hive_started.1 [] ((address_of 8, second_info) ∷ [])
      (address_of 7) first_info refl hive_converted.0 hive_converted.1 known_evm.0 known_account.0
      known_evm.1 known_account.1 known_mapping.0 known_kakarot.0 known_mapping.1 known_kakarot.1
      (second-Unmapped, tt) (first_not_kakarot, (second_not_kakarot, tt))

try_into_genesis_json-Stored_example :
    (address contract_account eoa : Residue) × (get string_dec "kakarot_address"
        hive_started.0.cache
      ≡ some address)
    × (get string_dec "contract_account" hive_started.0.class_hashes ≡ some contract_account)
    × (get string_dec "externally_owned_account" hive_started.0.class_hashes ≡ some eoa)
    × (contract : GenesisContract modular hive_crates) × (get modular.felt_eq known_account.0
          hive_converted.0.contracts
        ≡ some contract)
    × (storage : Map Residue Residue) × (contract.storage ≡ some storage)
    × Stored modular address contract_account eoa
        (account_of (96 ∷ []))
        (residue 10_000)
        (residue 30_000)
        (residue 77)
        storage
try_into_genesis_json-Stored_example =
    try_into_genesis_json-Stored modular hive_crates test_maker test_hive hive_loaded hive_started.0
      known_coinbase.0 known_coinbase.1 hive_started.1 [] ((address_of 8, second_info) ∷ [])
      (address_of 7) first_info refl hive_converted.0 hive_converted.1 known_evm.0 known_account.0
      known_evm.1 known_account.1 modular-IsField (second-Elsewhere, tt) (account_of (96 ∷ []))
      (residue 10_000) (residue 20_000) (residue 30_000) (residue 77)
      (differ (residue 10_000) (residue 20_000) (λ e. absurd (omega (arith, e))))
      (differ (residue 10_000) (residue 30_000) (λ e. absurd (omega (arith, e))))
      (differ (residue 77) (residue 10_000) (λ e. absurd (omega (arith, e))))
      (differ (residue 77) (residue 20_000) (λ e. absurd (omega (arith, e))))
      (differ (residue 77) (residue 30_000) (λ e. absurd (omega (arith, e)))) refl refl refl refl

try_into_genesis_json_total_example :
    (g : GenesisJson modular hive_crates) × (try_into_genesis_json modular hive_crates test_maker
        test_hive hive_loaded
      ≡ ok g)
try_into_genesis_json_total_example =
    try_into_genesis_json_total modular hive_crates test_maker
      (λ name keys ascii. (residue (name_number name + key_sum keys), refl)) test_hive hive_loaded
      hive_started.0 known_coinbase.0 known_coinbase.1 hive_started.1
      (
        (known_evm, account_of (96 ∷ []), refl, λ e. cc),
        ((known_second, account_of [], refl, λ e. cc), tt),
      )
