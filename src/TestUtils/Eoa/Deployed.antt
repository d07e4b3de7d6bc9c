-- ===== src/TestUtils/Eoa/Deployed.antt =====
-- The deployment of a contract by an account, from its transaction to the event
-- (src/test_utils/eoa.rs).
use kakarot_rpc.Prelude.{ℕ, String, some, ◌≡◌}
use kakarot_rpc.Prelude.Bytes.{Bytes}
use kakarot_rpc.Prelude.Result.{Result, ok}
use kakarot_rpc.EthProvider.Provider.{Environment}
use kakarot_rpc.EthProvider.Provider.Send.{Features}
use kakarot_rpc.TestUtils.EvmContract.{ContractCrates, CompactContractBytecode}
use kakarot_rpc.TestUtils.Eoa.{Signing, evm_address, nonce_u64}
use kakarot_rpc.TestUtils.Eoa.Contracts.{Later}

module _ (E : Environment) (S : Signing E) (C : ContractCrates)
    (from_str : String → Result String (CompactContractBytecode C)) (L : Later E)
    (features : Features) where
  open E use {field as F, node as N, primitives as X}

  abbrev pub Parts : Type 0
  Parts = CompactContractBytecode C × F.Felt × X.TransactionSigned

  -- The address at which the account's next contract is created.
  pub record Expected (s : N.State) (private_key : Bytes) (expected : F.Felt) : Type 0 where
    pub address : Bytes
    pub count : ℕ
    pub address_known : evm_address E S private_key ≡ ok address
    pub count_known : nonce_u64 E S s private_key ≡ ok count
    pub created : F.from_byte_slice_be (S.created_address address count) ≡ some expected
