-- ===== src/Tests/Rpc.antt =====
-- The servers over the provider of the small world.
use kakarot_rpc.Prelude.{◌∷◌, ℕ, ◌≡◌, some, refl, none, []}
use kakarot_rpc.Prelude.Int.{negsuc}
use kakarot_rpc.Prelude.Result.{err}
use kakarot_rpc.EthProvider.Interface.{EthereumProvider, eth_data_provider}
use kakarot_rpc.EthProvider.Provider.Send.Fee.{plain}
use kakarot_rpc.EthRpc.Erc20.{TokenAbi}
use kakarot_rpc.EthRpc.Alchemy.{token_balances}
use kakarot_rpc.EthRpc.Alchemy.Entries.{Replied, token_balances-Replied}
use kakarot_rpc.EthRpc.Eth.{handle}
use kakarot_rpc.EthRpc.Eth.Requests.{EthRequest, method_name}
use kakarot_rpc.EthRpc.Eth.Replies.{handle-unsupported}
use kakarot_rpc.Felt.Modular.{residue}
use kakarot_rpc.Tests.World.{test_environment, test_messages}

abbrev test_provider : EthereumProvider
test_provider = eth_data_provider test_environment (plain test_environment)

abbrev test_state : test_provider.State
test_state = record { node = 0; deploy_nonce = residue 4 }

handle-unsupported_example :
    handle test_provider test_messages {Value = ℕ} test_state (EthRequest.get_proof [] [] none) ≡ (
      err (record { code = negsuc 32003; message = "Method not supported: eth_getProof" }),
      test_state,
    )
unfolding method_name
handle-unsupported_example =
    handle-unsupported test_provider test_messages test_state (EthRequest.get_proof [] [] none) refl

abbrev test_abi : TokenAbi
test_abi = record { encode_balance_of = λ address. address; try_from_be_slice = λ bs. some 3 }

token_balances-Replied_example :
    Replied test_provider test_messages test_abi test_state []
      ([] ∷ [])
      (token_balances test_provider test_messages test_abi test_state [] ([] ∷ []))
token_balances-Replied_example =
    token_balances-Replied test_provider test_messages test_abi test_state [] ([] ∷ [])
