-- ===== src/TestUtils/TxWaiter.antt =====
-- `watch_tx` (src/test_utils/tx_waiter.rs): a transaction is polled until it has a receipt.
pub mod Outcome
use kakarot_rpc.Prelude.{ℕ, zero, suc, ◌+◌, String, Option, none, some, leb, if◌then◌else◌}
use kakarot_rpc.Prelude.Result.{Result, ok, err, panic}
use kakarot_rpc.EthProvider.Error.{ProviderError, StarknetError}

-- `starknet::core::types::ExecutionResult`
pub data ExecutionResult : Type 0 where
  succeeded : ExecutionResult
  reverted : String → ExecutionResult

pub data WatchError : Type 0 where
  not_confirmed : ℕ → WatchError
  reverted : String → WatchError
  provider : ProviderError → WatchError

-- One poll: `none` is to wait and try again.
unfoldable pub poll_once :
    Result ProviderError ExecutionResult → Option (Result WatchError (Unit {0}))
poll_once (ok ExecutionResult.succeeded) = some (ok tt)
poll_once (ok (ExecutionResult.reverted reason)) = some (err (WatchError.reverted reason))
poll_once (err (ProviderError.starknet_error StarknetError.transaction_hash_not_found)) = none
poll_once (err e) = some (err (WatchError.provider e))
poll_once panic = some panic

-- `receipt i` is what the node answers to the poll of number `i`.
module _ (receipt : ℕ → Result ProviderError ExecutionResult) (count : ℕ) where
  abbrev or_else :
      Option (Result WatchError (Unit {0}))
      → Option (Result WatchError (Unit {0}))
      → Option (Result WatchError (Unit {0}))
  or_else (some r) next = some r
  or_else none next = next

  -- The loop, from poll `i` on; `none` if the fuel runs out.
  unfoldable pub watch_loop : ℕ → ℕ → Option (Result WatchError (Unit {0}))
  unfolding poll_once
  watch_loop zero i = none
  watch_loop (suc fuel) i =
      let rest = watch_loop fuel (i + 1) in
      if leb count i
      then some (err (WatchError.not_confirmed count))
      else or_else (poll_once (receipt i)) rest

  -- Every turn of the loop counts up to `count`, so `count + 1` turns are enough.
  unfoldable pub watch_tx : Option (Result WatchError (Unit {0}))
  unfolding watch_loop
  watch_tx = watch_loop (count + 1) 0
