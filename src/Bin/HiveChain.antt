-- ===== src/Bin/HiveChain.antt =====
-- src/bin/hive_chain.rs: the blocks of a file are sent to the node, one transaction at a time.
pub mod Read
pub mod Ends
pub mod Sent
pub mod Waits
use kakarot_rpc.Prelude.{
  ℕ, zero, suc, ◌+◌, String, Bool, true, false, Option, none, some, List, [], ◌∷◌, ◌++◌, ltb,
  if◌then◌else◌,
}
use kakarot_rpc.Prelude.Bytes.{Bytes}
use kakarot_rpc.Prelude.Result.{Result, ok, err, panic, ◌>>=◌, map_err, ok_or}
use kakarot_rpc.Felt.{FieldElement}
use kakarot_rpc.EthProvider.Error.{EthProviderError, ProviderError}
use kakarot_rpc.EthProvider.Starknet.{
  StarknetProvider, Deployment, EthPrimitives, InvokeTransaction, to_starknet_transaction,
}
use kakarot_rpc.EthProvider.Provider.Fees.{u64_max}

-- `eyre::Error`, by what it is made of. `still_waiting` is no error of the code: the node has not
-- come to the block in the turns that the model waits.
pub data ImportError : Type 0 where
  message : String → ImportError
  provider : ProviderError → ImportError
  eth_provider : EthProviderError → ImportError
  still_waiting : ImportError

module _ (F : FieldElement) (N : StarknetProvider F) (K : Deployment F) (X : EthPrimitives) where
  -- What is not in this repository: `TransactionSigned::chain_id`, and what becomes of the node
  -- while the program sleeps.
  pub record Outside : Type 0 where
    pub chain_id : X.TransactionSigned → Option ℕ
    pub slept : N.State → N.State

  -- The state of the loops.
  pub record Import : Type 0 where
    pub node : N.State
    pub current_nonce : F.Felt

  module _ (O : Outside) where
    -- `while provider.block_number().await? < block_number`, in `turns` turns.
    unfoldable pub wait_for : ℕ → ℕ → N.State → Result ImportError N.State
    wait_for zero block_number s = err ImportError.still_waiting
    wait_for (suc turns) block_number s = do
      current ← map_err ImportError.provider (N.block_number s)
      let rest = wait_for turns block_number (O.slept s)
      if ltb current block_number then rest else ok s

    -- `assert_eq!(starknet_tx.nonce, current_nonce)`
    abbrev assert_nonce : (a b : F.Felt) → Result ImportError (Unit {0})
    assert_nonce a b = elim (F.felt_eq a b) [ yes _ ↦ ok tt | no _ ↦ panic ]

    abbrev took : Import → N.State → Import
    took i s = record { node = O.slept s; current_nonce = F.add i.current_nonce F.one_felt }

    -- `provider.add_invoke_transaction(…).await?`, a sleep, and the next nonce.
    abbrev add_invoke : Import → Result ProviderError F.Felt × N.State → Result ImportError Import
    add_invoke i (r, s) = do _ ← map_err ImportError.provider r; ok (took i s)

    unfoldable pub send_transaction : X.TransactionSigned → Import → Result ImportError Import
    send_transaction transaction i = do
      signer ← ok_or (ImportError.message "Failed to recover signer") (X.recover_signer transaction)
      chain_id ← ok_or (ImportError.message "Failed to recover chain id") (O.chain_id transaction)
      starknet_tx ←
          map_err ImportError.eth_provider
            (to_starknet_transaction F K X transaction chain_id signer u64_max)
      _ ← assert_nonce starknet_tx.nonce i.current_nonce
      add_invoke i (N.add_invoke_transaction i.node starknet_tx)

    unfoldable pub send_body : List X.TransactionSigned → Import → Result ImportError Import
    send_body [] i = ok i
    send_body (transaction ∷ transactions) i = do
      i' ← send_transaction transaction i
      send_body transactions i'

    -- The bodies from block `n` on, with `turns` turns of waiting for each.
    unfoldable pub send_bodies :
        ℕ → ℕ → List (List X.TransactionSigned) → Import → Result ImportError Import
    send_bodies turns n [] i = ok i
    send_bodies turns n (body ∷ bodies) i = do
      s ← wait_for turns n i.node
      i' ← send_body body (record i { node = s })
      send_bodies turns (n + 1) bodies i'

    -- `main`, for the bodies of the file.
    unfoldable pub import_bodies :
        ℕ → List (List X.TransactionSigned) → N.State → Result ImportError Import
    import_bodies turns bodies s =
        send_bodies turns 0 bodies (record { node = s; current_nonce = F.zero_felt })
