-- ===== src/EthProvider/Provider/Send/Fee.antt =====
-- The fee that a sender may pay, and when a transaction reaches the node.
use kakarot_rpc.Prelude.{
  ℕ, ◌+◌, ◌*◌, ◌%◌, ◌<◌, ◌^◌, ◌-◌, ◌≤◌, ◌≡◌, ◌⊎◌, inl, inr, dec_lt, ◌≢◌, refl, min, true, false,
  arith, Bool-cases,
}
use kakarot_rpc.Prelude.Bytes.{Bytes}
use kakarot_rpc.Prelude.Result.{Result, ok, err, panic}
use kakarot_rpc.EthProvider.Database.{EthProviderResult}
use kakarot_rpc.EthProvider.Error.{CallError}
use kakarot_rpc.EthProvider.Utils.{contract_not_found}
use kakarot_rpc.Models.Block.{StarknetBlockId, BlockTag}
use kakarot_rpc.EthProvider.Starknet.{InvokeTransaction}
use kakarot_rpc.EthProvider.Provider.{Environment}
use kakarot_rpc.EthProvider.Provider.Fees.{u64_max}
use kakarot_rpc.EthProvider.Provider.Send.{
  Features, SendState, max_fee_for, clamp_u64, deploy_missing, deployed, submit_deploy, add_invoke,
}

clamp_u64-min : (v : ℕ) → clamp_u64 v ≡ min v u64_max
clamp_u64-min v = ground arith

bounds :
    (funds cost : ℕ)
    → (min funds u64_max - min cost u64_max ≤ u64_max)
      × ((min funds u64_max - min cost u64_max + cost ≤ funds)
          ⊎ ((min funds u64_max - min cost u64_max ≡ 0) × (min funds u64_max ≤ cost)))
bounds funds cost = elim (dec_lt funds cost) [
  | yes h ↦ (omega arith, inr (omega arith, omega arith))
  | no h ↦ elim (dec_lt u64_max cost) [
    | yes k ↦ (omega arith, inr (omega arith, omega arith))
    | no k ↦ elim (dec_lt u64_max funds) [
      | yes l ↦ (omega arith, inl (omega arith))
      | no l ↦ (omega arith, inl (omega arith))
    ]
  ]
]

module _ (E : Environment) where
  open E use {field as F, node as N, primitives as X}

  -- If the gas prices of a transaction have 64 bits, its Starknet fee fits in 64 bits, and either
  -- that fee and the Ethereum fees, the price times the gas limit, are within the balance, or it is
  -- zero and the balance, cut to 64 bits, does not exceed the Ethereum fees.
  pub max_fee_for_bounds :
      (tx : X.TransactionSigned) (funds : ℕ)
      → X.max_fee_per_gas tx < 2 ^ 64
      → X.effective_gas_price tx (X.max_fee_per_gas tx) < 2 ^ 64
      → (max_fee_for E tx funds ≤ u64_max)
        × ((max_fee_for E tx funds
                + X.effective_gas_price tx (X.max_fee_per_gas tx) * X.gas_limit tx
              ≤ funds)
            ⊎ ((max_fee_for E tx funds ≡ 0)
                × (min funds u64_max
                    ≤ X.effective_gas_price tx (X.max_fee_per_gas tx) * X.gas_limit tx)))
  unfolding max_fee_for
  max_fee_for_bounds tx funds h k =
      let same : X.max_fee_per_gas tx % 2 ^ 64 ≡ X.max_fee_per_gas tx = omega (arith, h) in
      let kept : X.effective_gas_price tx (X.max_fee_per_gas tx) % 2 ^ 64
          ≡ X.effective_gas_price tx (X.max_fee_per_gas tx) =
        omega (arith, k) in
      rw (same, kept, clamp_u64-min funds)
        (bounds funds (X.effective_gas_price tx (X.max_fee_per_gas tx) * X.gas_limit tx))

  -- At a gas price whose low 64 bits are zero, the Starknet fee of a transaction is the whole
  -- balance, cut to 64 bits, whatever the gas limit: no Ethereum fees are kept back.
  pub max_fee_for-truncated :
      (tx : X.TransactionSigned) (funds : ℕ)
      → X.effective_gas_price tx (X.max_fee_per_gas tx % 2 ^ 64) % 2 ^ 64 ≡ 0
      → max_fee_for E tx funds ≡ min funds u64_max
  unfolding max_fee_for
  max_fee_for-truncated tx funds h = rw (h, clamp_u64-min funds) (omega arith)

  abbrev pub plain : Features
  plain = record { hive = false; testing = false }

  abbrev pub account_read : InvokeTransaction F → SendState E → Result CallError F.Felt
  account_read invoke s =
      N.get_implementation s.node invoke.sender_address (StarknetBlockId.tag BlockTag.latest)

  -- What becomes of the wallet's nonce with `hive`.
  pub data NonceKept (invoke : InvokeTransaction F) (s : SendState E)
      : EthProviderResult (Unit {0}) × SendState E → Type 0 where
    account_there :
        contract_not_found (account_read invoke s) ≡ false → NonceKept invoke s (ok tt, s)
    submitted :
        (s' : SendState E)
        → contract_not_found (account_read invoke s) ≡ true
        → s'.deploy_nonce ≡ F.add s.deploy_nonce F.one_felt
        → NonceKept invoke s (ok tt, s')
    not_submitted :
        (r : EthProviderResult (Unit {0})) (s' : SendState E)
        → contract_not_found (account_read invoke s) ≡ true
        → r ≢ ok tt
        → s'.deploy_nonce ≡ s.deploy_nonce
        → NonceKept invoke s (r, s')

  deployed-NonceKept :
      (invoke : InvokeTransaction F) (s : SendState E)
      → contract_not_found (account_read invoke s) ≡ true
      → (r : EthProviderResult F.Felt) (s' : N.State)
      → NonceKept invoke s (deployed E (r, s') s.deploy_nonce)
  deployed-NonceKept invoke s t (ok _) s' = NonceKept.submitted _ t refl
  deployed-NonceKept invoke s t (err e) s' = NonceKept.not_submitted _ _ t (λ h. cc) refl
  deployed-NonceKept invoke s t panic s' = NonceKept.not_submitted _ _ t (λ h. cc) refl

  submit_deploy-NonceKept :
      (invoke : InvokeTransaction F) (s : SendState E)
      → contract_not_found (account_read invoke s) ≡ true
      → (request : EthProviderResult (InvokeTransaction F))
      → NonceKept invoke s (submit_deploy E request s)
  submit_deploy-NonceKept invoke s t (ok request) =
      deployed-NonceKept invoke s t (add_invoke E s.node request).0 (add_invoke E s.node request).1
  submit_deploy-NonceKept invoke s t (err e) = NonceKept.not_submitted _ _ t (λ h. cc) refl
  submit_deploy-NonceKept invoke s t panic = NonceKept.not_submitted _ _ t (λ h. cc) refl

  -- With `hive`, an account that is there leaves everything alone. For a missing one the wallet's
  -- nonce goes up by one exactly when its deployment was submitted, and stays on every failure.
  pub deploy_missing_nonce :
      (signer : Bytes) (invoke : InvokeTransaction F) (s : SendState E)
      → NonceKept invoke s (deploy_missing E signer invoke s)
  unfolding deploy_missing
  deploy_missing_nonce signer invoke s =
      elim (Bool-cases (contract_not_found (account_read invoke s))) [
        | inl t ↦ rw t (submit_deploy-NonceKept invoke s t _)
        | inr f ↦ rw f (NonceKept.account_there f)
      ]
