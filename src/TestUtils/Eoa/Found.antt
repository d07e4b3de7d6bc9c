-- ===== src/TestUtils/Eoa/Found.antt =====
-- The contract that a deployment returns (src/test_utils/eoa.rs).
use kakarot_rpc.Prelude.{
  ℕ, ◌<◌, String, Bool, true, false, ◌&&◌, Option, none, some, List, [], ◌∷◌, ◌⊎◌, inl, inr, ◌≡◌,
  refl, sym, ap, ◌∙◌, subst, if◌then◌else◌, arith,
}
use kakarot_rpc.Prelude.Bytes.{Bytes}
use kakarot_rpc.Prelude.Result.{Result, ok, err, panic, unwrap, ok_or}
use kakarot_rpc.Models.Felt.{felt_from_b256}
use kakarot_rpc.EthProvider.Error.{ProviderError}
use kakarot_rpc.EthProvider.Database.Reads.{>>=-eq-ok, ok_injective, ok_or-eq-ok}
use kakarot_rpc.EthProvider.Provider.{Environment}
use kakarot_rpc.EthProvider.Provider.Send.{Features}
use kakarot_rpc.TestUtils.TxWaiter.{ExecutionResult, WatchError, watch_tx, poll_once}
use kakarot_rpc.TestUtils.TxWaiter.Outcome.{Watched, watch_tx-Watched}
use kakarot_rpc.TestUtils.EvmContract.{
  EyreError, ContractCrates, CompactContractBytecode, KakarotEvmContract,
}
use kakarot_rpc.TestUtils.Eoa.{Signing}
use kakarot_rpc.TestUtils.Eoa.Contracts.{
  Event, MaybePendingReceipt, Later, expect_ok, confirmed, contains, find, index, invoke_events,
  deploys, deployed_contract,
}

pub expect_ok-eq-ok {ℓ κ} :
    (E : Environment) {Err : Type ℓ} {A : Type κ} (r : Result Err A) (a : A)
    → expect_ok E r ≡ ok a
    → r ≡ ok a
expect_ok-eq-ok E (ok x) a h = cc
expect_ok-eq-ok E (err e) a h = cc
expect_ok-eq-ok E panic a h = cc

some_injective {ℓ} : {A : Type ℓ} (a b : A) → some a ≡ some b → a ≡ b
some_injective a b h = cc

pub unwrap-eq-ok {ℓ κ} :
    {Err : Type ℓ} {A : Type κ} (o : Option A) (a : A)
    → ◌≡◌ {A = Result Err A} (unwrap o) (ok a)
    → o ≡ some a
unwrap-eq-ok none a h = cc
unwrap-eq-ok (some x) a h = cc

-- A successful poll is one of a transaction that succeeded.
succeeded_poll :
    (r : Result ProviderError ExecutionResult)
    → poll_once r ≡ some (ok tt)
    → r ≡ ok ExecutionResult.succeeded
unfolding poll_once
succeeded_poll (ok ExecutionResult.succeeded) h = refl
succeeded_poll (ok (ExecutionResult.reverted reason)) h = cc
succeeded_poll (err e) h = ground arith
succeeded_poll panic h = cc

-- One of the polls says that the transaction succeeded.
abbrev pub Accepted : (ℕ → Result ProviderError ExecutionResult) → ℕ → Type 0
Accepted polls count = (k : ℕ) × (k < count) × (polls k ≡ ok ExecutionResult.succeeded)

module _ (E : Environment) where
  open E use {field as F, node as N, primitives as X}

  confirmed-eq-ok : (r : Result WatchError (Unit {0})) → confirmed E (some r) ≡ ok tt → r ≡ ok tt
  confirmed-eq-ok (ok _) h = refl
  confirmed-eq-ok (err e) h = cc
  confirmed-eq-ok panic h = cc

  Watched-Accepted :
      (polls : ℕ → Result ProviderError ExecutionResult) (count : ℕ)
      (o : Option (Result WatchError (Unit {0})))
      → Watched polls count o
      → confirmed E o ≡ ok tt
      → Accepted polls count
  Watched-Accepted polls count _ (Watched.answered k r lt before h) e =
      (k, lt, succeeded_poll (polls k) (h ∙ ap some (confirmed-eq-ok r e)))
  Watched-Accepted polls count _ (Watched.timed_out before) e = cc

  -- The event is in the list.
  abbrev pub Among : Event E → List (Event E) → Type 0
  Among e [] = ⊥
  Among e (x ∷ xs) = (e ≡ x) ⊎ Among e xs

  find-Among :
      (test : Event E → Bool) (es : List (Event E)) (e : Event E)
      → find E test es ≡ some e
      → (test e ≡ true) × Among e es
  find-Among test [] e h = cc
  find-Among test (x ∷ xs) e h = of (test x) refl h (find-Among test xs e)
    where
      of :
          (b : Bool)
          → test x ≡ b
          → (if b then some x else find E test xs) ≡ some e
          → (find E test xs ≡ some e → (test e ≡ true) × Among e xs)
          → (test e ≡ true) × Among e (x ∷ xs)
      of true t h' rest =
          let same : x ≡ e = some_injective x e h' in (ap test (sym same) ∙ t, inl (sym same))
      of false t h' rest = let (found, there) = rest h' in (found, inr there)

  module _ (L : Later E) where
    -- The contract of an event: the transaction was accepted, and the event is of its receipt, of
    -- the kind that announces a contract, and names the expected address.
    pub record Announced (expected : F.Felt) (tx_hash : Bytes) (evm starknet : F.Felt)
        : Type 0 where
      pub hash : F.Felt
      pub hash_known : felt_from_b256 F tx_hash ≡ ok hash
      pub accepted : Accepted (L.polls hash) 60
      pub events : List (Event E)
      pub receipt_known : L.receipt hash ≡ ok (MaybePendingReceipt.invoke events)
      pub event : Event E
      pub among : Among event events
      pub announces : contains E event.keys L.deployed_selector ≡ true
      pub names : contains E event.data_of expected ≡ true
      pub evm_at : index E 0 event.data_of ≡ some evm
      pub starknet_at : index E 1 event.data_of ≡ some starknet

    invoke_events-eq-ok :
        (r : MaybePendingReceipt E) (events : List (Event E))
        → invoke_events E r ≡ ok events
        → r ≡ MaybePendingReceipt.invoke events
    invoke_events-eq-ok (MaybePendingReceipt.invoke es) events h = cc
    invoke_events-eq-ok MaybePendingReceipt.other events h = cc

    and_parts : (a b : Bool) → (a && b) ≡ true → (a ≡ true) × (b ≡ true)
    and_parts a b h = ground arith

    module _ (S : Signing E) (C : ContractCrates)
        (from_str : String → Result String (CompactContractBytecode C)) (features : Features) where
      abbrev contract_at : CompactContractBytecode C → F.Felt → F.Felt → KakarotEvmContract C F
      contract_at bytecode starknet evm = record {
        bytecode = bytecode;
        starknet_address = starknet;
        evm_address = evm;
      }

      -- A contract that is returned after the sending of a deployment is announced by the receipt
      -- of the transaction, which one of 60 polls found accepted; its addresses are the first two
      -- elements of the event, and the expected address is among its data.
      pub deployed_contract-Announced :
          (bytecode : CompactContractBytecode C) (expected : F.Felt) (tx_hash : Bytes)
          (contract : KakarotEvmContract C F)
          → deployed_contract E S C from_str L features bytecode expected tx_hash ≡ ok contract
          → Announced expected tx_hash contract.evm_address contract.starknet_address
      unfolding deployed_contract
      deployed_contract-Announced bytecode expected tx_hash contract h =
          let (hash, e1, h1) = >>=-eq-ok (expect_ok E (felt_from_b256 F tx_hash)) _ contract h in
          let (_, e2, h2) = >>=-eq-ok (confirmed E (watch_tx (L.polls hash) 60)) _ contract h1 in
          let (r, e3, h3) = >>=-eq-ok (expect_ok E (L.receipt hash)) _ contract h2 in
          let (events, e4, h4) = >>=-eq-ok (invoke_events E r) _ contract h3 in
          let (event, e5, h5) =
            >>=-eq-ok
              (ok_or (EyreError.message "Failed to find deployed contract address")
                (find E (deploys E L.deployed_selector expected) events))
              _ contract h4 in
          let (starknet, e6, h6) = >>=-eq-ok (unwrap (index E 1 event.data_of)) _ contract h5 in
          let (evm, e7, h7) = >>=-eq-ok (unwrap (index E 0 event.data_of)) _ contract h6 in
          let (tested, among) =
            find-Among (deploys E L.deployed_selector expected) events event
              (ok_or-eq-ok _ _ event e5) in
          let (announces, names) =
            and_parts (contains E event.keys L.deployed_selector)
              (contains E event.data_of expected) tested in
          subst
            (λ (c : KakarotEvmContract C F).
              Announced expected tx_hash c.evm_address c.starknet_address)
            (ok_injective (contract_at bytecode starknet evm) contract h7)
            (record {
              hash = hash;
              hash_known = expect_ok-eq-ok E (felt_from_b256 F tx_hash) hash e1;
              accepted =
                  Watched-Accepted (L.polls hash) 60 (watch_tx (L.polls hash) 60)
                    (watch_tx-Watched (L.polls hash) 60) e2;
              events = events;
              receipt_known =
                  expect_ok-eq-ok E (L.receipt hash) r e3 ∙ ap ok (invoke_events-eq-ok r events e4);
              event = event;
              among = among;
              announces = announces;
              names = names;
              evm_at = unwrap-eq-ok {Err = EyreError} (index E 0 event.data_of) evm e7;
              starknet_at = unwrap-eq-ok {Err = EyreError} (index E 1 event.data_of) starknet e6;
            })
