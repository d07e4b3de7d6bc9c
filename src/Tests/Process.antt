-- ===== src/Tests/Process.antt =====
-- The start of the program, the polling of a transaction and the errors at concrete inputs.
use kakarot_rpc.Prelude.{ℕ, String, none, refl, ltb, if◌then◌else◌}
use kakarot_rpc.Prelude.Result.{Result, ok, err}
use kakarot_rpc.Config.{Host, Network, KakarotRpcConfig, starknet_client}
use kakarot_rpc.Config.Networks.{Started, starknet_client-Started}
use kakarot_rpc.EthProvider.Error.{ProviderError, StarknetError}
use kakarot_rpc.TestUtils.TxWaiter.{ExecutionResult, watch_tx}
use kakarot_rpc.TestUtils.TxWaiter.Outcome.{Watched, watch_tx-Watched}

-- The transaction is found by the third poll.
abbrev test_receipts : ℕ → Result ProviderError ExecutionResult
test_receipts i =
    if ltb i 2
    then err (ProviderError.starknet_error StarknetError.transaction_hash_not_found)
    else ok ExecutionResult.succeeded

watch_tx-Watched_example : Watched test_receipts 60 (watch_tx test_receipts 60)
watch_tx-Watched_example = watch_tx-Watched test_receipts 60

-- A host without environment variables, on which every URL parses.
abbrev test_host : Host
test_host = record {
  Url = String;
  Felt = ℕ;
  var = λ name. none;
  var_message = "environment variable not found";
  to_lowercase = λ s. s;
  parse_url = λ s. ok s;
  from_hex_be = λ s. ok 0;
}

abbrev test_debug : Network String → String
test_debug network = "network"

abbrev test_config : KakarotRpcConfig test_host
test_config = record {
  network = Network.sharingan;
  kakarot_address = 1;
  proxy_account_class_hash = 2;
  externally_owned_account_class_hash = 3;
  contract_account_class_hash = 4;
}

starknet_client-Started_example :
    Started test_host test_debug test_config (starknet_client test_host test_debug test_config)
starknet_client-Started_example =
    starknet_client-Started test_host test_debug test_config "http://0.0.0.0:5050"
      "http://127.0.0.1:9944" refl refl
