-- ===== src/Tests/Calls.antt =====
-- Calls of the EVM, and the replies to what they answer.
use kakarot_rpc.Prelude.{
  Bool, true, false, ◌==◌, ap, ◌-◌, ◌-◌, ◌^◌, ◌≡◌, refl, true, none, some, [], ◌∷◌, arith,
}
use kakarot_rpc.Prelude.Bytes.{to_be_bytes, to_be_bytes-IsBytes, length-to_be_bytes}
use kakarot_rpc.Prelude.Result.{ok, ◌>>=◌}
use kakarot_rpc.Felt.Modular.{residue, modular, modular-IsField}
use kakarot_rpc.Models.Block.{BlockTag, StarknetBlockId}
use kakarot_rpc.EthProvider.Starknet.{EthCall, CallOutput, StarknetProvider}
use kakarot_rpc.EthProvider.Provider.{or_call_error}
use kakarot_rpc.EthProvider.Provider.Blocks.{to_starknet_block_id}
use kakarot_rpc.EthProvider.Provider.{Environment}
use kakarot_rpc.EthProvider.Provider.Calls.{
  TransactionRequest, call_helper, call_result, call, estimate_gas,
}
use kakarot_rpc.EthProvider.Provider.Calls.Answered.{Answered, call-Answered}
use kakarot_rpc.EthProvider.Provider.Calls.Sent.{Says, call_helper-Says}
use kakarot_rpc.Tests.World.{test_environment, test_node, test_deployment, test_sender}

test_block_id :
    to_starknet_block_id test_environment none ≡ ok (StarknetBlockId.tag BlockTag.pending)
unfolding to_starknet_block_id
test_block_id = refl

abbrev test_request : TransactionRequest
test_request = record {
  from = some test_sender;
  to = some (to_be_bytes 20 9);
  gas_price = none;
  gas = none;
  value = some 12;
  input = some (1 ∷ 2 ∷ []);
  input_data = none;
  nonce = some 3;
}

call_helper-Says_example :
    (c : EthCall modular) × Says test_environment modular-IsField test_request test_sender
      (to_be_bytes 20 9)
      3
      c
    × (call_helper test_environment 0 test_request none ≡ (
        or_call_error (
          test_node.eth_call 0 test_deployment.kakarot_address c
            (StarknetBlockId.tag BlockTag.pending))
        >>= call_result test_environment))
call_helper-Says_example =
    call_helper-Says test_environment modular-IsField 0 test_request none
      (StarknetBlockId.tag BlockTag.pending) test_sender (to_be_bytes 20 9) 3 test_block_id refl
      (length-to_be_bytes 20 7) (to_be_bytes-IsBytes 20 7) refl (length-to_be_bytes 20 9)
      (to_be_bytes-IsBytes 20 9) refl (omega arith) (omega arith) (omega arith) (omega arith)
      (omega arith, (omega arith, tt)) (omega arith)

-- The data has two bytes and a number that is none; the estimate is a failed execution.
abbrev test_output : CallOutput modular
test_output = record {
  return_data = residue 65 ∷ residue 300 ∷ residue 66 ∷ [];
  success = residue 1;
  gas_used = residue 21000;
}

abbrev failed_output : CallOutput modular
failed_output = record test_output { success = residue 0 }

abbrev answer_of : Bool → CallOutput modular
answer_of true = failed_output
answer_of false = test_output

-- The execution fails at the gas limit of an estimate.
abbrev answering_node : StarknetProvider modular
answering_node = record test_node {
  eth_call = λ s kakarot c id. ok (answer_of (c.gas_limit.0 == 2 ^ 64 - 1));
}

abbrev answering : Environment
answering = record test_environment { node = answering_node }

answering_block : to_starknet_block_id answering none ≡ ok (StarknetBlockId.tag BlockTag.pending)
unfolding to_starknet_block_id
answering_block = refl

call-Answered_example :
    Answered answering modular-IsField test_output
      (65 ∷ 66 ∷ [])
      (call answering 0 test_request none)
    × Answered answering modular-IsField failed_output 21000
        (estimate_gas answering 0 test_request none)
unfolding modular-IsField
call-Answered_example =
    call-Answered answering modular-IsField 0 test_request none
      (StarknetBlockId.tag BlockTag.pending) test_sender (to_be_bytes 20 9) 3 answering_block refl
      (length-to_be_bytes 20 7) (to_be_bytes-IsBytes 20 7) refl (length-to_be_bytes 20 9)
      (to_be_bytes-IsBytes 20 9) refl (omega arith) (omega arith) (omega arith)
      (omega arith, (omega arith, tt)) (omega arith) test_output failed_output (omega arith)
      (λ c says. ap (λ n. ok (answer_of (n == 2 ^ 64 - 1))) says.gas_limit)
      (λ c says. ap (λ n. ok (answer_of (n == 2 ^ 64 - 1))) says.gas_limit)
