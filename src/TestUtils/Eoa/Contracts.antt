-- ===== src/TestUtils/Eoa/Contracts.antt =====
-- Contracts that an account deploys and calls (src/test_utils/eoa.rs).
use kakarot_rpc.Prelude.{
  ℕ, zero, suc, String, Bool, true, false, ◌&&◌, Option, none, some, List, [], ◌∷◌, any,
  if◌then◌else◌,
}
use kakarot_rpc.Prelude.Bytes.{Bytes}
use kakarot_rpc.Prelude.Result.{Result, ok, err, panic, ◌>>=◌, map_err, ok_or, unwrap}
use kakarot_rpc.Models.Felt.{felt_from_b256}
use kakarot_rpc.EthProvider.Error.{ProviderError}
use kakarot_rpc.EthProvider.Provider.{Environment}
use kakarot_rpc.EthProvider.Provider.Send.{Features, SendState}
use kakarot_rpc.TestUtils.TxWaiter.{ExecutionResult, WatchError, watch_tx}
use kakarot_rpc.TestUtils.EvmContract.{
  EyreError, ContractCrates, CompactContractBytecode, KakarotEvmContract, load_contract_bytecode,
  prepare_create_transaction, prepare_call_transaction,
}
use kakarot_rpc.TestUtils.Eoa.{
  Signing, evm_address, nonce_u64, chain_id_u64, sign_transaction, send_transaction, send_signed,
}

module _ (E : Environment) where
  open E use {field as F, node as N, primitives as X}

  pub record Event : Type 0 where
    pub keys : List F.Felt
    pub data_of : List F.Felt

  -- `MaybePendingTransactionReceipt`: the events of an invoke transaction in a block, or else.
  pub data MaybePendingReceipt : Type 0 where
    invoke : List Event → MaybePendingReceipt
    other : MaybePendingReceipt

  -- What the node answers after a transaction has been sent, by its hash: to the polls, and then to
  -- the request of the receipt; and `get_selector_from_name("evm_contract_deployed")`.
  pub record Later : Type 0 where
    pub polls : F.Felt → ℕ → Result ProviderError ExecutionResult
    pub receipt : F.Felt → Result ProviderError MaybePendingReceipt
    pub deployed_selector : F.Felt

  -- `Result::expect`
  abbrev pub expect_ok {ℓ κ} : {Err : Type ℓ} {A : Type κ} → Result Err A → Result EyreError A
  expect_ok (ok a) = ok a
  expect_ok (err e) = panic
  expect_ok panic = panic

  -- `.await.expect(…)` of `watch_tx`
  abbrev pub confirmed : Option (Result WatchError (Unit {0})) → Result EyreError (Unit {0})
  confirmed (some (ok _)) = ok tt
  confirmed (some (err e)) = panic
  confirmed (some panic) = panic
  confirmed none = panic

  abbrev is_felt : F.Felt → F.Felt → Bool
  is_felt a b = elim (F.felt_eq a b) [ yes _ ↦ true | no _ ↦ false ]

  -- `Vec::contains`
  abbrev pub contains : List F.Felt → F.Felt → Bool
  contains felts f = any (is_felt f) felts

  -- `Iterator::find`
  abbrev pub find : (Event → Bool) → List Event → Option Event
  find test [] = none
  find test (e ∷ es) = let rest = find test es in if test e then some e else rest

  abbrev pub index : ℕ → List F.Felt → Option F.Felt
  index n [] = none
  index zero (f ∷ fs) = some f
  index (suc n) (f ∷ fs) = index n fs

  abbrev pub invoke_events : MaybePendingReceipt → Result EyreError (List Event)
  invoke_events (MaybePendingReceipt.invoke events) = ok events
  invoke_events MaybePendingReceipt.other = err (EyreError.message "Failed to deploy contract")

  abbrev pub deploys : F.Felt → F.Felt → Event → Bool
  deploys selector expected event = contains event.keys selector && contains event.data_of expected

  module _ (S : Signing E) (C : ContractCrates)
      (from_str : String → Result String (CompactContractBytecode C)) (L : Later)
      (features : Features) where
    -- The contract that is deployed, its expected address and the signed transaction.
    unfoldable pub deploy_signed :
        N.State
        → Bytes
        → String
        → List C.Token
        → Result EyreError (CompactContractBytecode C × F.Felt × X.TransactionSigned)
    deploy_signed s private_key contract_name constructor_args = do
      count ← nonce_u64 E S s private_key
      id ← chain_id_u64 E S s
      bytecode ← map_err EyreError.message (load_contract_bytecode C from_str contract_name)
      address ← expect_ok (evm_address E S private_key)
      expected ← unwrap (F.from_byte_slice_be (S.created_address address count))
      tx ← prepare_create_transaction C bytecode constructor_args count id
      signed ← sign_transaction E S private_key tx
      ok (bytecode, expected, signed)

    -- What follows the sending: the transaction is waited for, and the contract is looked for in
    -- the events of its receipt.
    unfoldable pub deployed_contract :
        CompactContractBytecode C → F.Felt → Bytes → Result EyreError (KakarotEvmContract C F)
    deployed_contract bytecode expected tx_hash = do
      hash ← expect_ok (felt_from_b256 F tx_hash)
      _ ← confirmed (watch_tx (L.polls hash) 60)
      maybe_receipt ← expect_ok (L.receipt hash)
      events ← invoke_events maybe_receipt
      event ←
          ok_or (EyreError.message "Failed to find deployed contract address")
            (find (deploys L.deployed_selector expected) events)
      starknet ← unwrap (index 1 event.data_of)
      evm ← unwrap (index 0 event.data_of)
      ok (record { bytecode = bytecode; starknet_address = starknet; evm_address = evm })

    abbrev pub deploy_sent :
        CompactContractBytecode C
        → F.Felt
        → Result EyreError Bytes × SendState E
        → Result EyreError (KakarotEvmContract C F) × SendState E
    deploy_sent bytecode expected (r, s) =
        ((do tx_hash ← r; deployed_contract bytecode expected tx_hash), s)

    abbrev pub deploy_prepared :
        SendState E
        → Result EyreError (CompactContractBytecode C × F.Felt × X.TransactionSigned)
        → Result EyreError (KakarotEvmContract C F) × SendState E
    deploy_prepared s (ok (bytecode, expected, tx)) =
        deploy_sent bytecode expected (send_transaction E S features s tx)
    deploy_prepared s (err e) = (err e, s)
    deploy_prepared s panic = (panic, s)

    unfoldable pub deploy_evm_contract :
        SendState E
        → Bytes
        → String
        → List C.Token
        → Result EyreError (KakarotEvmContract C F) × SendState E
    deploy_evm_contract s private_key contract_name constructor_args =
        deploy_prepared s (deploy_signed s.node private_key contract_name constructor_args)

    unfoldable pub call_signed :
        N.State
        → Bytes
        → KakarotEvmContract C F
        → String
        → List C.Token
        → ℕ
        → Result EyreError X.TransactionSigned
    call_signed s private_key contract function args value = do
      count ← nonce_u64 E S s private_key
      id ← chain_id_u64 E S s
      tx ← prepare_call_transaction C F contract function args count value id
      sign_transaction E S private_key tx

    abbrev pub call_sent :
        Result EyreError Bytes × SendState E → Result EyreError F.Felt × SendState E
    call_sent (r, s) = (
      (do
        tx_hash ← r
        hash ← unwrap (F.from_bytes_be tx_hash)
        _ ← confirmed (watch_tx (L.polls hash) 60)
        ok hash),
      s,
    )

    unfoldable pub call_evm_contract :
        SendState E
        → Bytes
        → KakarotEvmContract C F
        → String
        → List C.Token
        → ℕ
        → Result EyreError F.Felt × SendState E
    call_evm_contract s private_key contract function args value =
        call_sent
          (send_signed E S features s (call_signed s.node private_key contract function args value))
