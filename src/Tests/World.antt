-- ===== src/Tests/World.antt =====
-- A database with one block of two transactions, a node, a deployment and Ethereum primitives, over
-- numbers below the prime.
use text.Mathlib.Text.{◌==◌ as str_eq}
use kakarot_rpc.Prelude.{
  ℕ, suc, ◌+◌, ◌*◌, ◌^◌, String, true, false, Option, none, some, List, [], ◌∷◌, ap, length,
  replicate, if◌then◌else◌,
}
use kakarot_rpc.Prelude.Bytes.{Bytes, to_be_bytes, from_be_bytes}
use kakarot_rpc.Prelude.Hex.{pad_zeros, hex_digits}
use kakarot_rpc.Prelude.Result.{Result, ok, err}
use kakarot_rpc.Felt.Modular.{Residue, residue, modular}
use kakarot_rpc.EthProvider.Error.{Messages}
use kakarot_rpc.EthProvider.Utils.{LowerHex, primitive_hex}
use kakarot_rpc.EthProvider.Database.{MongoDatabase, Header}
use kakarot_rpc.EthProvider.Database.Reads.{ok_injective}
use kakarot_rpc.EthProvider.Starknet.{
  StarknetProvider, Deployment, EthPrimitives, SyncStatusType, InvokeTransaction,
}
use kakarot_rpc.EthProvider.Provider.{Environment}
use kakarot_rpc.EthProvider.Provider.Blocks.Counts.{CountsFound}

pub data StoredDoc : Type 0 where
  header_doc : Header → StoredDoc
  tx_doc : ℕ → Bytes → StoredDoc

abbrev pub root_hash : Bytes
root_hash = replicate 32 86

abbrev pub test_header : Header
test_header = record {
  hash = some (to_be_bytes 32 77);
  number = some 7;
  difficulty = 0;
  gas_limit = 30;
  gas_used = 21;
  base_fee_per_gas = some 5;
  withdrawals_root = some root_hash;
}

abbrev test_documents : String → List StoredDoc
test_documents collection =
    if str_eq collection "headers"
    then header_doc test_header ∷ []
    else tx_doc 1 (to_be_bytes 32 1) ∷ tx_doc 2 (to_be_bytes 32 2) ∷ []

abbrev first : List StoredDoc → Option StoredDoc
first [] = none
first (x ∷ xs) = some x

abbrev read_header : StoredDoc → Result String Header
read_header (header_doc h) = ok h
read_header (tx_doc _ _) = err "not a header"

abbrev read_tx : StoredDoc → Result String ℕ
read_tx (header_doc h) = err "not a transaction"
read_tx (tx_doc n _) = ok n

abbrev read_hash : StoredDoc → Result String Bytes
read_hash (header_doc h) = err "not a transaction"
read_hash (tx_doc _ h) = ok h

abbrev pub test_database : MongoDatabase
test_database = record {
  Raw = StoredDoc;
  Fields = StoredDoc;
  Transaction = ℕ;
  Receipt = ℕ;
  Log = ℕ;
  find = λ collection filter project. ok (test_documents collection);
  find_one = λ collection filter sort. ok (first (test_documents collection));
  count_documents = λ collection filter. ok (length (test_documents collection));
  struct_field = λ name raw. ok raw;
  as_b256 = read_hash;
  as_map = λ raw. ok raw;
  header_of_map = read_header;
  transaction_of_map = read_tx;
  receipt_of_map = read_tx;
  log_of_map = read_tx;
  custom = λ message. message;
}

pub test_database-CountsFound : CountsFound test_database
test_database-CountsFound = record {
  counts = λ collection filter project raws h.
      ap (λ r. ok (length r)) (ok_injective (test_documents collection) raws h);
}

abbrev pub eoa_class : Residue
eoa_class = residue 11

abbrev pub test_invoke : InvokeTransaction modular
test_invoke = record {
  max_fee = residue 1;
  signature = [];
  nonce = residue 0;
  sender_address = residue 1007;
  calldata = [];
  is_query = false;
}

abbrev pub test_node : StarknetProvider modular
test_node = record {
  State = ℕ;
  block_number = λ s. ok 7;
  syncing = λ s. ok SyncStatusType.not_syncing;
  chain_id = λ s. ok (residue 1263227476);
  get_nonce = λ s id account. ok (residue 5);
  add_invoke_transaction = λ s invoke. (ok (residue 99), suc s);
  balance_of = λ s token account id. ok (record { low = residue 10; high = residue 1 });
  get_implementation = λ s account id. ok eoa_class;
  storage = λ s account key id. ok (record { low = residue 3; high = residue 0 });
  contract_nonce = λ s account id. ok (residue 1);
  bytecode = λ s account id. ok (residue 96 ∷ residue 1 ∷ []);
  eth_call = λ s kakarot c id.
      ok (record { return_data = c.calldata; success = residue 1; gas_used = residue 21000 });
  get_base_fee = λ s kakarot. ok (residue 1);
  wallet_request = λ s calls nonce fee. ok test_invoke;
}

abbrev pub test_deployment : Deployment modular
test_deployment = record {
  kakarot_address = residue 1000;
  proxy_account_class_hash = residue 10;
  externally_owned_account_class_hash = eoa_class;
  contract_account_class_hash = residue 12;
  eth_send_transaction = residue 13;
  deploy_selector = residue 14;
  starknet_native_token = residue 15;
  get_contract_address = λ salt class_hash calldata deployer. residue (salt.0 + deployer.0);
  get_storage_var_address = λ name keys. some (residue 16);
}

abbrev either : Option Bytes → Option Bytes → Option Bytes
either none b = b
either (some a) b = some a

-- The formatters of byte strings write the number, padded.
abbrev bytes_hex : LowerHex Bytes
bytes_hex = record { digits = λ width bs. pad_zeros width (hex_digits 64 (from_be_bytes bs)) }

abbrev pub test_sender : Bytes
test_sender = to_be_bytes 20 7

abbrev pub test_primitives : EthPrimitives
test_primitives = record {
  TransactionSigned = ℕ;
  decode = λ bs. ok (length bs);
  recover_signer = λ tx. some test_sender;
  nonce = λ tx. 3;
  signature_r = λ tx. 2 ^ 130 + 5;
  signature_s = λ tx. 6;
  odd_y_parity = λ tx. true;
  signature_v = λ tx chain_id. chain_id * 2 + 36;
  is_legacy = λ tx. false;
  encode_without_signature = λ tx. 2 ∷ 192 ∷ 1 ∷ [];
  max_fee_per_gas = λ tx. 10;
  effective_gas_price = λ tx base_fee. 10;
  gas_limit = λ tx. 21000;
  transaction_hash = λ tx. to_be_bytes 32 tx;
  into_input = either;
  empty_root_hash = root_hash;
  hex_u64 = primitive_hex;
  hex_b256 = bytes_hex;
  hex_address = bytes_hex;
  from_uint_message = "too large";
  Float = ℕ × ℕ;
  as_f64 = λ n. (n, 1);
  div_f64 = λ a b. (a.0, b.0);
}

abbrev pub test_environment : Environment
test_environment = record {
  field = modular;
  database = test_database;
  node = test_node;
  deployment = test_deployment;
  primitives = test_primitives;
}

abbrev pub test_messages : Messages
test_messages = record {
  provider_message = λ e. "provider error";
  call_message = λ e. "call error";
  byte_array_message = "byte array error";
}
