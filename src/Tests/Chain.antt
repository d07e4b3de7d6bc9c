-- ===== src/Tests/Chain.antt =====
-- The binaries on a small genesis, and on a chain of two blocks.
use kakarot_rpc.Prelude.{
  ℕ, zero, suc, ◌∙◌, ◌+◌, ◌-◌, ◌^◌, ◌<◌, ap, length, String, some, List, [], ◌∷◌, ◌≡◌, refl, arith,
  dec_lt, ℕ_discrete, flat_map,
}
use kakarot_rpc.Prelude.Bytes.{Bytes}
use kakarot_rpc.Prelude.Map.{get, Has, string_dec}
use kakarot_rpc.Prelude.Result.{Result, ok, err}
use kakarot_rpc.Felt.Modular.{Residue, residue, modular, modular-IsField}
use kakarot_rpc.EthProvider.Starknet.{StarknetProvider, EthPrimitives, to_starknet_transaction}
use kakarot_rpc.Bin.Genesis.{Written, hive_genesis, katana_genesis}
use kakarot_rpc.Bin.Manifest.{hive_genesis-fits}
use kakarot_rpc.Bin.HiveChain.{
  Outside, Import, import_bodies, wait_for, send_transaction, send_body, send_bodies,
}
use kakarot_rpc.Bin.HiveChain.Sent.{Sent, transactions_of, import_bodies-Sent}
use kakarot_rpc.Bin.HiveChain.Read.{read_file, read_file-encode}
use kakarot_rpc.Bin.HiveChain.Ends.{read_file_ends}
use kakarot_rpc.Bin.Prefunded.{Prefunded, katana_genesis-Prefunded}
use kakarot_rpc.EthProvider.Database.Reads.{ok_injective}
use kakarot_rpc.Bin.HiveChain.Waits.{after, wait_for-after}
use kakarot_rpc.Tests.World.{test_node, test_deployment, test_primitives}
use kakarot_rpc.Tests.Hive.{hive_crates, test_maker, test_hive}
use kakarot_rpc.TestUtils.Genesis.Classes.{compute_class_hash, load_classes, with_dev_allocation}
use kakarot_rpc.TestUtils.Hive.{
  account_cells, convert_account, convert_accounts, genesis_with_accounts, implementation_cells,
  try_into_genesis_json,
}
use kakarot_rpc.TestUtils.Genesis.{
  cache_load, compute_starknet_address, default_builder, evm_address, with_kakarot,
}
use kakarot_rpc.TestUtils.Genesis.Initialized.{build, with_eoa, fund}
use kakarot_rpc.Models.Felt.{felt_from_address}

abbrev class_files : List (String × ℕ)
class_files =
    ("kakarot", 1)
    ∷ ("contract_account", 2)
    ∷ ("externally_owned_account", 3)
    ∷ ("proxy", 4)
    ∷ ("precompiles", 5)
    ∷ []

written :
    (w : Written modular hive_crates) × (hive_genesis modular hive_crates test_maker class_files
        test_hive
      ≡ ok w)
unfolding hive_genesis dec_lt ℕ_discrete load_classes compute_class_hash try_into_genesis_json
    with_kakarot with_dev_allocation genesis_with_accounts cache_load default_builder
    convert_accounts convert_account compute_starknet_address account_cells implementation_cells
    build
written = (_, refl)

hive_genesis-fits_example :
    (k : Residue) × (get string_dec "kakarot_address" written.0.manifest.deployments ≡ some k)
    × Has modular.felt_eq k written.0.genesis.contracts
hive_genesis-fits_example =
    hive_genesis-fits modular hive_crates test_maker class_files test_hive written.0 written.1

-- The nonce of a transaction is its number, and the node is at the block of its state.
abbrev chain_primitives : EthPrimitives
chain_primitives = record test_primitives { nonce = λ tx. tx }

abbrev chain_node : StarknetProvider modular
chain_node = record test_node { block_number = λ s. ok s }

abbrev chain_outside : Outside modular chain_node test_deployment chain_primitives
chain_outside = record { chain_id = λ tx. some 1; slept = λ s. suc s }

abbrev two_bodies : List (List ℕ)
two_bodies = (0 ∷ 1 ∷ []) ∷ (2 ∷ []) ∷ []

imported :
    (i : Import modular chain_node test_deployment chain_primitives) × (import_bodies modular
        chain_node test_deployment chain_primitives chain_outside 5 two_bodies 0
      ≡ ok i)
unfolding import_bodies dec_lt ℕ_discrete send_bodies wait_for send_body send_transaction
    to_starknet_transaction felt_from_address
imported = (_, refl)

import_bodies-Sent_example :
    Sent modular chain_node test_deployment chain_primitives chain_outside 0
      (residue 0)
      (transactions_of modular chain_node test_deployment chain_primitives chain_outside two_bodies)
      imported.0.node
      imported.0.current_nonce
import_bodies-Sent_example =
    import_bodies-Sent modular chain_node test_deployment chain_primitives chain_outside 5
      two_bodies 0 imported.0 imported.1

after-add :
    (j s : ℕ) → after modular chain_node test_deployment chain_primitives chain_outside j s ≡ j + s
after-add zero s = omega arith
after-add (suc j) s = after-add j (suc s) ∙ omega arith

wait_for-after_example :
    wait_for modular chain_node test_deployment chain_primitives chain_outside 9 4 1
    ≡ ok (after modular chain_node test_deployment chain_primitives chain_outside 3 1)
wait_for-after_example =
    wait_for-after modular chain_node test_deployment chain_primitives chain_outside 9 4 3 1 4
      (omega arith) (λ j lt. (_, refl, omega (arith, after-add j 1))) refl (omega arith)

-- A block is one byte.
abbrev decode_byte : Bytes → Result String (ℕ × Bytes)
decode_byte [] = err "no block"
decode_byte (x ∷ xs) = ok (x, xs)

read_file-encode_example :
    read_file ℕ decode_byte (flat_map (λ b. b ∷ []) (5 ∷ 6 ∷ [])) ≡ some (ok (5 ∷ 6 ∷ []))
read_file-encode_example =
    read_file-encode ℕ decode_byte (λ b. b ∷ []) (λ b. (b, [], refl)) (λ b rest. refl) (5 ∷ 6 ∷ [])

decode_byte-shorter :
    (src : Bytes) (b : ℕ) (rest : Bytes) → decode_byte src ≡ ok (b, rest) → length rest < length src
decode_byte-shorter [] b rest h = cc
decode_byte-shorter (x ∷ xs) b rest h =
    let same : (x, xs) ≡ (b, rest) = ok_injective (x, xs) (b, rest) h in
    let equal : length xs ≡ length rest = ap (λ (p : ℕ × Bytes). length p.1) same in
    omega (arith, equal)

read_file_ends_example :
    (r : Result String (List ℕ)) × (read_file ℕ decode_byte (5 ∷ 6 ∷ []) ≡ some r)
read_file_ends_example = read_file_ends ℕ decode_byte decode_byte-shorter (5 ∷ 6 ∷ [])

prefunded :
    (w : Written modular hive_crates) × (katana_genesis modular hive_crates class_files [] ≡ ok w)
unfolding katana_genesis with_eoa fund evm_address dec_lt ℕ_discrete load_classes compute_class_hash
    with_kakarot with_dev_allocation cache_load default_builder compute_starknet_address build
prefunded = (_, refl)

katana_genesis-Prefunded_example :
    Prefunded modular modular-IsField hive_crates [] (2 ^ 128 - 1) prefunded.0
katana_genesis-Prefunded_example =
    katana_genesis-Prefunded modular modular-IsField hive_crates class_files [] prefunded.0
      prefunded.1
