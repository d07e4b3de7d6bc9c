-- ===== src/EthProvider/Provider/Send.antt =====
-- `send_raw_transaction`, with the build features `hive` and `testing`.
pub mod Fee
pub mod Ordered
use kakarot_rpc.Prelude.{
  ℕ, ◌*◌, ◌-◌, ◌%◌, ◌^◌, min, Bool, true, false, Option, none, some, unwrap_or, List, [], ◌∷◌, ltb,
  if◌then◌else◌,
}
use kakarot_rpc.Prelude.Bytes.{Bytes}
use kakarot_rpc.Prelude.Result.{Result, ok, err, panic, ◌>>=◌, map_err, ok_or}
use kakarot_rpc.Models.Errors.{to_starknet_transaction_error, from_uint_error}
use kakarot_rpc.Models.Felt.{felt_from_address}
use kakarot_rpc.Models.Block.{StarknetBlockId, BlockTag}
use kakarot_rpc.EthProvider.Error.{EthProviderError, ProviderError}
use kakarot_rpc.EthProvider.Utils.{contract_not_found}
use kakarot_rpc.EthProvider.Database.{EthProviderResult}
use kakarot_rpc.EthProvider.Starknet.{InvokeTransaction, Call, to_starknet_transaction}
use kakarot_rpc.EthProvider.Provider.{Environment, or_provider_error, or_conversion_error, try_u64}
use kakarot_rpc.EthProvider.Provider.Fees.{u64_max}
use kakarot_rpc.EthProvider.Provider.Accounts.{chain_id, balance}

pub record Features : Type 0 where
  pub hive : Bool
  pub testing : Bool

-- `u64::saturating_mul`
abbrev pub saturating_mul : ℕ → ℕ → ℕ
saturating_mul a b = min (a * b) u64_max

-- `TryInto::<u64>::try_into(…).unwrap_or(u64::MAX)`
abbrev pub clamp_u64 : ℕ → ℕ
clamp_u64 v = if ltb v (2 ^ 64) then v else u64_max

module _ (E : Environment) where
  open E use {field as F, node as N, deployment as K, primitives as X}

  -- What a sender may pay in Starknet fees: the balance without the Ethereum fees. Casts to `u64`
  -- drop the high bits.
  unfoldable pub max_fee_for : X.TransactionSigned → ℕ → ℕ
  max_fee_for tx funds =
      let eth_fees_per_gas = X.effective_gas_price tx (X.max_fee_per_gas tx % 2 ^ 64) % 2 ^ 64 in
      let eth_fees = saturating_mul eth_fees_per_gas (X.gas_limit tx) in clamp_u64 funds - eth_fees

  -- The state of the node, and `DEPLOY_WALLET_NONCE`.
  pub record SendState : Type 0 where
    pub node : N.State
    pub deploy_nonce : F.Felt

  abbrev pub max_fee : Features → N.State → X.TransactionSigned → Bytes → EthProviderResult ℕ
  max_fee features s tx signer =
      if features.hive
      then ok u64_max
      else do funds ← balance E s signer none; ok (max_fee_for tx funds)

  -- Everything up to the Starknet transaction. The chain id is read before the signer.
  unfoldable pub prepare :
      Features
      → N.State
      → Bytes
      → EthProviderResult (X.TransactionSigned × Bytes × InvokeTransaction F)
  prepare features s transaction = do
    tx ← or_conversion_error (map_err to_starknet_transaction_error (X.decode transaction))
    maybe_id ← chain_id E s
    id ← or_conversion_error (try_u64 (from_uint_error X.from_uint_message) (unwrap_or maybe_id 0))
    signer ←
        or_conversion_error
          (ok_or (to_starknet_transaction_error "Failed to recover signer") (X.recover_signer tx))
    fee ← max_fee features s tx signer
    invoke ← to_starknet_transaction F K X tx id signer fee
    ok (tx, signer, invoke)

  -- `add_invoke_transaction(…).await?`
  abbrev add_invoke : N.State → InvokeTransaction F → EthProviderResult F.Felt × N.State
  add_invoke s invoke = let (r, s') = N.add_invoke_transaction s invoke in (or_provider_error r, s')

  abbrev deployed :
      EthProviderResult F.Felt × N.State → F.Felt → EthProviderResult (Unit {0}) × SendState
  deployed (ok _, s') nonce = (ok tt, record { node = s'; deploy_nonce = F.add nonce F.one_felt })
  deployed (err e, s') nonce = (err e, record { node = s'; deploy_nonce = nonce })
  deployed (panic, s') nonce = (panic, record { node = s'; deploy_nonce = nonce })

  abbrev submit_deploy :
      EthProviderResult (InvokeTransaction F) → SendState → EthProviderResult (Unit {0}) × SendState
  submit_deploy (ok request) s = deployed (add_invoke s.node request) s.deploy_nonce
  submit_deploy (err e) s = (err e, s)
  submit_deploy panic s = (panic, s)

  abbrev deploy_call : F.Felt → Call F
  deploy_call signer = record {
    to = K.kakarot_address;
    selector = K.deploy_selector;
    calldata = signer ∷ [];
  }

  -- With `hive`: the account of a sender that has none is deployed first.
  unfoldable pub deploy_missing :
      Bytes → InvokeTransaction F → SendState → EthProviderResult (Unit {0}) × SendState
  deploy_missing signer invoke s =
      if contract_not_found
        (N.get_implementation s.node invoke.sender_address (StarknetBlockId.tag BlockTag.latest))
      then submit_deploy
          (do
            felt ← felt_from_address F signer
            map_err EthProviderError.other (
                N.wallet_request s.node (deploy_call felt ∷ []) s.deploy_nonce
                  (F.from_uint u64_max)))
          s
      else (ok tt, s)

  -- The Ethereum hash; with `testing`, the Starknet hash as bytes.
  abbrev pub submitted :
      Features → X.TransactionSigned → EthProviderResult F.Felt → EthProviderResult Bytes
  submitted features tx r = do
    hash ← r
    if features.testing then ok (F.to_bytes_be hash) else ok (X.transaction_hash tx)

  unfoldable pub submit :
      Features
      → X.TransactionSigned
      → InvokeTransaction F
      → EthProviderResult (Unit {0}) × SendState
      → EthProviderResult Bytes × SendState
  submit features tx invoke (ok _, s) =
      let (r, s') = add_invoke s.node invoke in (submitted features tx r, record s { node = s' })
  submit features tx invoke (err e, s) = (err e, s)
  submit features tx invoke (panic, s) = (panic, s)

  abbrev pub send_prepared :
      Features
      → EthProviderResult (X.TransactionSigned × Bytes × InvokeTransaction F)
      → SendState
      → EthProviderResult Bytes × SendState
  send_prepared features (ok (tx, signer, invoke)) s =
      submit features tx invoke
        (if features.hive then deploy_missing signer invoke s else (ok tt, s))
  send_prepared features (err e) s = (err e, s)
  send_prepared features panic s = (panic, s)

  unfoldable pub send_raw_transaction :
      Features → SendState → Bytes → EthProviderResult Bytes × SendState
  send_raw_transaction features s transaction =
      send_prepared features (prepare features s.node transaction) s
