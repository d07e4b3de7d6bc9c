-- ===== src/EthProvider/Provider/Send/Ordered.antt =====
-- What the node is sent with the build feature `hive`, in which order.
use kakarot_rpc.Prelude.{Bool, ◌≡◌, ◌≢◌, inl, inr, refl, sym, ◌∙◌, true, false, [], ◌∷◌, Bool-cases}
use kakarot_rpc.Prelude.Bytes.{Bytes}
use kakarot_rpc.Prelude.Result.{Result, ok, err, panic, ◌>>=◌, map_err}
use kakarot_rpc.Models.Felt.{felt_from_address}
use kakarot_rpc.EthProvider.Database.{EthProviderResult}
use kakarot_rpc.EthProvider.Error.{EthProviderError, ProviderError}
use kakarot_rpc.EthProvider.Utils.{contract_not_found}
use kakarot_rpc.EthProvider.Starknet.{InvokeTransaction}
use kakarot_rpc.EthProvider.Provider.{Environment, or_provider_error}
use kakarot_rpc.EthProvider.Provider.Fees.{u64_max}
use kakarot_rpc.EthProvider.Provider.Send.{
  Features, SendState, prepare, send_raw_transaction, submit, submitted, deploy_missing, deployed,
  submit_deploy, deploy_call,
}
use kakarot_rpc.EthProvider.Provider.Send.Fee.{account_read}

module _ (E : Environment) where
  open E use {field as F, node as N, primitives as X}

  abbrev pub with_hive : Bool → Features
  with_hive testing = record { hive = true; testing = testing }

  -- The deployment of an account, at the wallet's nonce and with the greatest fee.
  abbrev pub deploy_request : Bytes → SendState E → EthProviderResult (InvokeTransaction F)
  deploy_request signer s = do
    felt ← felt_from_address F signer
    map_err EthProviderError.other
        (N.wallet_request s.node (deploy_call E felt ∷ []) s.deploy_nonce (F.from_uint u64_max))

  module _ (testing : Bool) (tx : X.TransactionSigned) (signer : Bytes)
      (invoke : InvokeTransaction F) (s : SendState E) where
    -- The reply, and the state, in each case.
    pub data HiveSent : EthProviderResult Bytes × SendState E → Type 0 where
      account_there :
          (r : Result ProviderError F.Felt) (n : N.State)
          → contract_not_found (account_read E invoke s) ≡ false
          → N.add_invoke_transaction s.node invoke ≡ (r, n)
          → HiveSent
              (submitted E (with_hive testing) tx (or_provider_error r), record s { node = n })
      deployed_first :
          (request : InvokeTransaction F) (felt : F.Felt) (between n : N.State)
          (r : Result ProviderError F.Felt)
          → contract_not_found (account_read E invoke s) ≡ true
          → deploy_request signer s ≡ ok request
          → N.add_invoke_transaction s.node request ≡ (ok felt, between)
          → N.add_invoke_transaction between invoke ≡ (r, n)
          → HiveSent (
            submitted E (with_hive testing) tx (or_provider_error r),
            record { node = n; deploy_nonce = F.add s.deploy_nonce F.one_felt },
          )
      deploy_refused :
          (request : InvokeTransaction F) (r : Result ProviderError F.Felt) (n : N.State)
          (reply : EthProviderResult Bytes)
          → contract_not_found (account_read E invoke s) ≡ true
          → deploy_request signer s ≡ ok request
          → N.add_invoke_transaction s.node request ≡ (r, n)
          → ((felt : F.Felt) → r ≢ ok felt)
          → ((hash : Bytes) → reply ≢ ok hash)
          → HiveSent (reply, record s { node = n })
      no_request :
          (reply : EthProviderResult Bytes)
          → contract_not_found (account_read E invoke s) ≡ true
          → ((request : InvokeTransaction F) → deploy_request signer s ≢ ok request)
          → ((hash : Bytes) → reply ≢ ok hash)
          → HiveSent (reply, s)

    submit-HiveSent :
        contract_not_found (account_read E invoke s) ≡ true
        → HiveSent
            (submit E (with_hive testing) tx invoke (submit_deploy E (deploy_request signer s) s))
    unfolding submit
    submit-HiveSent missing = of (deploy_request signer s) refl
      where
        answered :
            (request : InvokeTransaction F) (r : Result ProviderError F.Felt) (n : N.State)
            → deploy_request signer s ≡ ok request
            → N.add_invoke_transaction s.node request ≡ (r, n)
            → HiveSent (
                submit E
                  (with_hive testing)
                  tx
                  invoke
                  (deployed E (or_provider_error r, n) s.deploy_nonce))
        answered request (ok felt) n e k =
            HiveSent.deployed_first request felt n (N.add_invoke_transaction n invoke).1
              (N.add_invoke_transaction n invoke).0 missing e k refl
        answered request (err x) n e k =
            HiveSent.deploy_refused request (err x) n _ missing e k (λ felt h. cc) (λ hash h. cc)
        answered request panic n e k =
            HiveSent.deploy_refused request panic n _ missing e k (λ felt h. cc) (λ hash h. cc)

        of :
            (d : EthProviderResult (InvokeTransaction F))
            → deploy_request signer s ≡ d
            → HiveSent (submit E (with_hive testing) tx invoke (submit_deploy E d s))
        of (ok request) e =
            answered request (N.add_invoke_transaction s.node request).0
              (N.add_invoke_transaction s.node request).1 e refl
        of (err x) e =
            HiveSent.no_request _ missing
              (λ request h.
                let k : ◌≡◌ {A = EthProviderResult (InvokeTransaction F)} (err x) (ok request) =
                  sym e ∙ h in
                cc)
              (λ hash h. cc)
        of panic e =
            HiveSent.no_request _ missing
              (λ request h.
                let k : ◌≡◌ {A = EthProviderResult (InvokeTransaction F)} panic (ok request) =
                  sym e ∙ h in
                cc)
              (λ hash h. cc)

    -- With `hive`, a prepared transaction of a sender that has an account goes to the node at once.
    -- For a sender that has none, its deployment goes first, at the nonce of the wallet, which then
    -- goes up by one, and the transaction goes to the node that took the deployment. A deployment
    -- that cannot be made or that the node refuses ends in a failure, without the transaction.
    pub send_raw_transaction-HiveSent :
        (transaction : Bytes)
        → prepare E (with_hive testing) s.node transaction ≡ ok (tx, signer, invoke)
        → HiveSent (send_raw_transaction E (with_hive testing) s transaction)
    unfolding send_raw_transaction submit deploy_missing
    send_raw_transaction-HiveSent transaction prepared =
        rw prepared (elim (Bool-cases (contract_not_found (account_read E invoke s))) [
          | inl t ↦ rw t (submit-HiveSent t)
          | inr f ↦ rw f (HiveSent.account_there _ _ f refl)
        ])
