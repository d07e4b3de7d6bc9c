-- ===== src/Tests/Sending.antt =====
-- Transactions are sent, with the build feature `hive` too.
use kakarot_rpc.Prelude.{◌^◌, arith, ℕ, ◌*◌, ◌+◌, ◌≤◌, ◌≡◌, ◌⊎◌, refl, [], ◌∷◌, false, dec_lt}
use kakarot_rpc.Prelude.Bytes.{Bytes, to_be_bytes}
use kakarot_rpc.Prelude.Result.{ok, err}
use kakarot_rpc.Felt.Modular.{residue, modular}
use kakarot_rpc.Models.Felt.{felt_from_address, u256_from_felt}
use kakarot_rpc.EthProvider.Error.{CallError, ProviderError, StarknetError}
use kakarot_rpc.EthProvider.Utils.{split_u256, contract_not_found}
use kakarot_rpc.EthProvider.Starknet.{
  StarknetProvider, starknet_address, InvokeTransaction, to_starknet_transaction,
}
use kakarot_rpc.EthProvider.Provider.Accounts.{chain_id}
use kakarot_rpc.EthProvider.Provider.Fees.{u64_max}
use kakarot_rpc.EthProvider.Provider.Send.{
  SendState, send_raw_transaction, deploy_missing, submit, max_fee_for, prepare,
}
use kakarot_rpc.EthProvider.Provider.Send.Ordered.{
  HiveSent, with_hive, send_raw_transaction-HiveSent,
}
use kakarot_rpc.EthProvider.Provider.{Environment}
use kakarot_rpc.EthProvider.Provider.Send.Fee.{max_fee_for_bounds, max_fee_for-truncated}
use kakarot_rpc.Tests.World.{test_environment, test_node, test_sender, test_primitives}

abbrev test_cost : ℕ
test_cost =
    test_primitives.effective_gas_price 1 (test_primitives.max_fee_per_gas 1)
    * test_primitives.gas_limit 1

max_fee_for_bounds_example :
    (max_fee_for test_environment 1 300000 ≤ u64_max)
    × ((max_fee_for test_environment 1 300000 + test_cost ≤ 300000)
        ⊎ ((max_fee_for test_environment 1 300000 ≡ 0) × (300000 ≤ test_cost)))
max_fee_for_bounds_example =
    max_fee_for_bounds test_environment 1 300000 (omega arith) (omega arith)

-- An environment in which the gas price of every transaction is 2^64.
abbrev dear_environment : Environment
dear_environment = record test_environment {
  primitives = record test_primitives { effective_gas_price = λ tx base_fee. 2 ^ 64 };
}

max_fee_for-truncated_example : max_fee_for dear_environment 1 300000 ≡ 300000
max_fee_for-truncated_example = max_fee_for-truncated dear_environment 1 300000 refl

abbrev test_transaction : Bytes
test_transaction = 2 ∷ []

-- A node on which no account is deployed yet.
abbrev missing_node : StarknetProvider modular
missing_node = record test_node {
  get_implementation = λ s account id.
      err (CallError.provider (ProviderError.starknet_error StarknetError.contract_not_found));
}

abbrev hive_environment : Environment
hive_environment = record test_environment { node = missing_node }

abbrev hive_state : SendState hive_environment
hive_state = record { node = 0; deploy_nonce = residue 4 }

hive_prepared :
    (invoke : InvokeTransaction modular) × (prepare hive_environment
        (with_hive hive_environment false)
        0
        test_transaction
      ≡ ok (1, test_sender, invoke))
unfolding prepare chain_id starknet_address felt_from_address u256_from_felt to_starknet_transaction
    split_u256 dec_lt
hive_prepared = (_, refl)

send_raw_transaction-HiveSent_example :
    HiveSent hive_environment false 1 test_sender hive_prepared.0 hive_state (
      send_raw_transaction hive_environment
        (with_hive hive_environment false)
        hive_state
        test_transaction)
send_raw_transaction-HiveSent_example =
    send_raw_transaction-HiveSent hive_environment false 1 test_sender hive_prepared.0 hive_state
      test_transaction hive_prepared.1

-- Both transactions reach the node, and the wallet has its next nonce.
both_sent :
    send_raw_transaction hive_environment
      (with_hive hive_environment false)
      hive_state
      test_transaction
    ≡ (ok (to_be_bytes 32 1), record { node = 2; deploy_nonce = residue 5 })
unfolding send_raw_transaction prepare chain_id starknet_address felt_from_address u256_from_felt
    to_starknet_transaction split_u256 dec_lt submit deploy_missing contract_not_found
both_sent = refl
