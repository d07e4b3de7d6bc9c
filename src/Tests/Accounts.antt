-- ===== src/Tests/Accounts.antt =====
-- A transfer and a deployment of a test account.
use kakarot_rpc.Prelude.{
  ℕ, String, some, none, [], ◌∷◌, length, replicate, length-replicate, ◌≡◌, refl, ap, dec_lt,
  ℕ_discrete,
}
use kakarot_rpc.Prelude.Bytes.{Bytes, to_be_bytes}
use kakarot_rpc.Prelude.Result.{Result, ok}
use kakarot_rpc.Felt.Modular.{residue}
use kakarot_rpc.EthProvider.Provider.{Environment}
use kakarot_rpc.EthProvider.Provider.Send.{SendState, prepare, send_raw_transaction, submit}
use kakarot_rpc.TestUtils.Eoa.Sent.{tested}
use kakarot_rpc.TestUtils.TxWaiter.{ExecutionResult}
use kakarot_rpc.TestUtils.EvmContract.{ContractCrates, CompactContractBytecode}
use kakarot_rpc.TestUtils.Eoa.{
  Signing, transfer, send_transaction, nonce, sign_transaction, transfer_signed,
}
use kakarot_rpc.TestUtils.Eoa.Contracts.{Later, MaybePendingReceipt}
use kakarot_rpc.TestUtils.Eoa.Transferred.{SigningLaws, Transferred, transfer-Transferred}
use kakarot_rpc.Tests.World.{test_environment, test_primitives, test_sender}
use kakarot_rpc.EthProvider.Provider.Accounts.{balance, chain_id, transaction_count}
use kakarot_rpc.EthProvider.Provider.Blocks.{to_starknet_block_id}
use kakarot_rpc.EthProvider.Starknet.{starknet_address, to_starknet_transaction}
use kakarot_rpc.Models.Felt.{felt_from_address, u256_from_felt}
use kakarot_rpc.EthProvider.Utils.{contract_not_found}

-- A signed transaction is its nonce, and is encoded in as many bytes.
abbrev eoa_environment : Environment
eoa_environment = record test_environment {
  primitives = record test_primitives { nonce = λ tx. tx };
}

abbrev test_signing : Signing eoa_environment
test_signing = record {
  Signature = ℕ;
  wallet_address = λ pk. ok test_sender;
  signature_hash = λ tx. tx.input;
  sign_message = λ pk hash. ok (length pk);
  from_transaction_and_signature = λ tx g. tx.nonce;
  encode_enveloped = λ tx. replicate tx 0;
  created_address = λ address count. to_be_bytes 20 55;
}

test_signing_laws : SigningLaws eoa_environment test_signing
test_signing_laws = record {
  decode-encode = λ tx. ap ok (length-replicate tx 0);
  nonce-signed = λ tx g. refl;
}

abbrev test_send_state : SendState eoa_environment
test_send_state = record { node = 0; deploy_nonce = residue 0 }

transferred :
    (hash : Bytes) × (s : SendState eoa_environment) × (transfer eoa_environment test_signing tested
        test_send_state [] test_sender 9
      ≡ (ok hash, s))
unfolding transfer dec_lt ℕ_discrete transfer_signed nonce transaction_count to_starknet_block_id
    starknet_address felt_from_address contract_not_found u256_from_felt chain_id sign_transaction
    send_transaction send_raw_transaction prepare balance to_starknet_transaction submit
transferred = (_, _, refl)

transfer-Transferred_example :
    Transferred eoa_environment test_signing test_send_state transferred.1 [] test_sender 9
      transferred.0
transfer-Transferred_example =
    transfer-Transferred eoa_environment test_signing test_signing_laws test_send_state
      transferred.1 [] test_sender 9 transferred.0 transferred.2

abbrev test_contracts : ContractCrates
test_contracts = record {
  Abi = Unit {0};
  Token = ℕ;
  constructor = λ abi. none;
  call_data = λ abi name args. ok [];
  project_root = "root" ∷ [];
  foundry_out = "out" ∷ [];
  read_to_string = λ path. ok "{}";
}

abbrev test_from_str : String → Result String (CompactContractBytecode test_contracts)
test_from_str content = ok (record { abi = some tt; bytecode = some (some (96 ∷ [])) })

abbrev test_later : Later eoa_environment
test_later = record {
  polls = λ hash k. ok ExecutionResult.succeeded;
  receipt = λ hash. ok (
      MaybePendingReceipt.invoke (
        record { keys = []; data_of = residue 55 ∷ [] }
        ∷ record { keys = residue 44 ∷ []; data_of = residue 55 ∷ residue 66 ∷ [] }
        ∷ []));
  deployed_selector = residue 44;
}
