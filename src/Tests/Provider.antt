-- ===== src/Tests/Provider.antt =====
-- The provider in the small world: one application of each of its theorems.
use kakarot_rpc.Prelude.{
  ℕ, ◌*◌, ◌+◌, ◌-◌, ◌^◌, ◌<◌, ◌≤◌, ◌≡◌, ◌↔◌, ◌<◌, ◌⊎◌, refl, subst, true, none, some, List, [], ◌∷◌,
  arith, All, dec_lt,
}
use kakarot_rpc.Prelude.Bytes.{Bytes, to_be_bytes, to_be_bytes-IsBytes, length-to_be_bytes}
use kakarot_rpc.Prelude.Result.{Result, ok}
use kakarot_rpc.Felt.Modular.{Residue, residue, modular, modular-IsField}
use kakarot_rpc.Models.Block.{BlockId, BlockTag, StarknetBlockId, BlockNumberOrTag}
use kakarot_rpc.Models.Felt.{felt_from_address}
use kakarot_rpc.EthProvider.Error.{CallError}
use kakarot_rpc.EthProvider.Database.{get, deserialize_header, deserialize_transaction, get_one}
use kakarot_rpc.EthProvider.Database.Reads.{ok_injective}
use kakarot_rpc.EthProvider.Starknet.{starknet_address, InvokeTransaction, to_starknet_transaction}
use kakarot_rpc.EthProvider.Starknet.Invoke.{IsInvokeOf, to_starknet_transaction-IsInvokeOf}
use kakarot_rpc.EthProvider.Provider.Blocks.{
  tag_into_block_number, block_by_number, Block, BlockTransactions, block, block_transactions,
  BlockHashOrNumber, block_by_hash, block_transaction_count_by_hash, to_starknet_block_id, header,
}
use kakarot_rpc.EthProvider.Provider.Blocks.Counts.{count-block_by_hash}
use kakarot_rpc.EthProvider.Provider.Blocks.StarknetIds.{StandsFor, to_starknet_block_id-number}
use kakarot_rpc.EthProvider.Provider.Accounts.{storage_at, balance, transaction_count, get_code}
use kakarot_rpc.EthProvider.Provider.Accounts.Reads.{
  NonceRead, CodeRead, transaction_count_lem, get_code_lem,
}
use kakarot_rpc.EthProvider.Provider.Accounts.Words.{HalvesFit, balance_lem, storage_at_lem}
use kakarot_rpc.EthProvider.Provider.Logs.{Filter, block_range, get_logs}
use kakarot_rpc.EthProvider.Provider.Logs.Range.{Covers, block_range_exact, get_logs-wildcard}
use kakarot_rpc.EthProvider.Provider.Fees.{start_of}
use kakarot_rpc.EthProvider.Provider.Fees.History.{start_of_count}
use kakarot_rpc.Tests.World.{
  test_environment, test_database-CountsFound, test_deployment, test_primitives, test_sender,
  test_header,
}

abbrev test_hash : Bytes
test_hash = to_be_bytes 32 77

abbrev test_block : Block ℕ
test_block = record {
  header = test_header;
  transactions = BlockTransactions.full (1 ∷ 2 ∷ []);
  total_difficulty = some 0;
  uncles = [];
  size = none;
  withdrawals = some [];
}

stored_block : block_by_hash test_environment test_hash true ≡ ok (some test_block)
unfolding block_by_hash block header get_one deserialize_header block_transactions get
    deserialize_transaction
stored_block = refl

count-block_by_hash_example :
    block_transaction_count_by_hash test_environment test_hash ≡ ok (some 2)
count-block_by_hash_example =
    count-block_by_hash test_environment test_database-CountsFound test_hash true test_block
      stored_block

stored_by_number :
    block_by_number test_environment 0 (BlockNumberOrTag.number 7) true ≡ ok (some test_block)
unfolding block_by_number tag_into_block_number block header get_one deserialize_header
    block_transactions get deserialize_transaction
stored_by_number = refl

known_number : tag_into_block_number test_environment 0 (BlockNumberOrTag.number 7) ≡ ok 7
unfolding tag_into_block_number
known_number = refl

abbrev test_account : Residue
test_account = residue 1007

known_block : to_starknet_block_id test_environment none ≡ ok (StarknetBlockId.tag BlockTag.pending)
unfolding to_starknet_block_id
known_block = refl

derived_account : starknet_address modular test_deployment test_sender ≡ ok test_account
unfolding starknet_address felt_from_address dec_lt
derived_account = refl

balance_lem_example : balance test_environment 0 test_sender none ≡ ok (10 + 1 * 2 ^ 128)
unfolding modular-IsField
balance_lem_example =
    balance_lem test_environment modular-IsField 0 test_sender none
      (StarknetBlockId.tag BlockTag.pending) test_account known_block derived_account fit
  where
    fit :
        HalvesFit test_environment modular-IsField
          (ok (record { low = residue 10; high = residue 1 }))
    fit w h =
        let e = ok_injective (record { low = residue 10; high = residue 1 }) w h in
        subst (λ w. (w.low.0 < 2 ^ 128) × (w.high.0 < 2 ^ 128)) e (omega arith, omega arith)

storage_at_lem_example :
    storage_at test_environment 0 test_sender 5 none ≡ ok (to_be_bytes 32 (3 + 0 * 2 ^ 128))
unfolding modular-IsField
storage_at_lem_example =
    storage_at_lem test_environment modular-IsField 0 test_sender none
      (StarknetBlockId.tag BlockTag.pending) test_account known_block derived_account 5 (residue 16)
      (omega arith) refl fit
  where
    fit :
        HalvesFit test_environment modular-IsField
          (ok (record { low = residue 3; high = residue 0 }))
    fit w h =
        let e = ok_injective (record { low = residue 3; high = residue 0 }) w h in
        subst (λ w. (w.low.0 < 2 ^ 128) × (w.high.0 < 2 ^ 128)) e (omega arith, omega arith)

transaction_count_lem_example :
    NonceRead test_environment modular-IsField 0 test_account
      (StarknetBlockId.tag BlockTag.pending)
      (transaction_count test_environment 0 test_sender none)
transaction_count_lem_example =
    transaction_count_lem test_environment modular-IsField 0 test_sender none
      (StarknetBlockId.tag BlockTag.pending) test_account known_block derived_account

get_code_lem_example :
    CodeRead test_environment modular-IsField 0 test_account
      (StarknetBlockId.tag BlockTag.pending)
      (get_code test_environment 0 test_sender none)
unfolding modular-IsField
get_code_lem_example =
    get_code_lem test_environment modular-IsField 0 test_sender none
      (StarknetBlockId.tag BlockTag.pending) test_account known_block derived_account are_bytes
  where
    are_bytes :
        (fs : List Residue)
        → ◌≡◌ {A = Result CallError (List Residue)} (ok (residue 96 ∷ residue 1 ∷ [])) (ok fs)
        → All (λ f. f.0 < 2 ^ 8) fs
    are_bytes fs h =
        subst (All (λ (f : Residue). f.0 < 2 ^ 8)) (ok_injective (residue 96 ∷ residue 1 ∷ []) fs h)
          (omega arith, (omega arith, tt))

stored_header :
    header test_environment (BlockHashOrNumber.number 7)
    ≡ ok (some (record { header = test_header }))
unfolding header get_one deserialize_header
stored_header = refl

to_starknet_block_id-number_example :
    StandsFor test_environment 7
      (some (record { header = test_header }))
      (to_starknet_block_id test_environment (some (BlockId.number (BlockNumberOrTag.number 7))))
to_starknet_block_id-number_example =
    to_starknet_block_id-number test_environment 7 (some (record { header = test_header }))
      stored_header

to_starknet_transaction-IsInvokeOf_example :
    (t : InvokeTransaction modular) × (to_starknet_transaction modular test_deployment
        test_primitives 1 1263227476 test_sender 900
      ≡ ok t)
    × IsInvokeOf modular modular-IsField test_deployment test_primitives 1 1263227476 test_sender
        900 t
to_starknet_transaction-IsInvokeOf_example =
    to_starknet_transaction-IsInvokeOf modular modular-IsField test_deployment test_primitives 1
      1263227476 test_sender 900 (length-to_be_bytes 20 7) (to_be_bytes-IsBytes 20 7) (omega arith)
      (omega arith) (omega arith) (omega arith) (omega arith)
      (omega arith, (omega arith, (omega arith, tt))) (omega arith)

block_range_exact_example :
    (Covers (block_range 10 (some 3) (some 12)) 10 ↔ ((3 ≤ 10) × (10 ≤ 12) × (10 ≤ 10)))
    × ((block_range 10 (some 3) (some 12) ≡ none) ↔ ((10 < 3) ⊎ (12 < 3)))
block_range_exact_example = block_range_exact 10 (some 3) (some 12) 10

abbrev test_filter : Filter
test_filter = record { from_block = none; to_block = none; topics = []; address = none }

get_logs-wildcard_example :
    get_logs test_environment 0 (record test_filter { topics = none ∷ [] })
    ≡ get_logs test_environment 0 (record test_filter { topics = [] })
get_logs-wildcard_example = get_logs-wildcard test_environment 0 test_filter [] []

start_of_count_example : 10 + 1 - start_of 10 4 ≡ 4
start_of_count_example = start_of_count 10 4 (omega arith)
