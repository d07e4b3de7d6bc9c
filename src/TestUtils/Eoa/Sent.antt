-- ===== src/TestUtils/Eoa/Sent.antt =====
-- What a transaction that is sent gives to the node, in the build that has src/test_utils
-- (`send_raw_transaction` of src/eth_provider/provider.rs).
use kakarot_rpc.Prelude.{ℕ, true, false, some, unwrap_or, ◌≡◌, refl, sym, ap, subst}
use kakarot_rpc.Prelude.Bytes.{Bytes}
use kakarot_rpc.Prelude.Result.{Result, ok, err, panic, map_err, ok_or}
use kakarot_rpc.Models.Errors.{to_starknet_transaction_error, from_uint_error}
use kakarot_rpc.EthProvider.Error.{ProviderError, EthProviderError}
use kakarot_rpc.EthProvider.Utils.{split_u256}
use kakarot_rpc.EthProvider.Database.{EthProviderResult}
use kakarot_rpc.EthProvider.Database.Reads.{>>=-eq-ok, ok_injective, map_err-eq-ok, ok_or-eq-ok}
use kakarot_rpc.EthProvider.Starknet.{InvokeTransaction, to_starknet_transaction, starknet_address}
use kakarot_rpc.EthProvider.Provider.{Environment, try_u64, or_provider_error, or_conversion_error}
use kakarot_rpc.EthProvider.Provider.Accounts.{chain_id}
use kakarot_rpc.EthProvider.Provider.Send.{
  Features, SendState, max_fee, prepare, submit, submitted, send_prepared, send_raw_transaction,
}

-- The build feature `testing`, which src/test_utils needs, without `hive`.
abbrev pub tested : Features
tested = record { hive = false; testing = true }

module _ (E : Environment) where
  open E use {field as F, node as N, deployment as K, primitives as X}

  -- What a successful send gave to the node.
  pub record Submitted (s s' : SendState E) (transaction hash : Bytes) : Type 0 where
    pub tx : X.TransactionSigned
    pub signer : Bytes
    pub invoke : InvokeTransaction F
    pub prepared : prepare E tested s.node transaction ≡ ok (tx, signer, invoke)
    pub felt : F.Felt
    pub added : N.add_invoke_transaction s.node invoke ≡ (ok felt, s'.node)
    pub hash_of : hash ≡ F.to_bytes_be felt

  submit-eq :
      (tx : X.TransactionSigned) (s s' : SendState E) (hash : Bytes)
      (r : Result ProviderError F.Felt) (n : N.State)
      → ◌≡◌ {A = EthProviderResult Bytes × SendState E}
          (submitted E tested tx (or_provider_error r), record s { node = n })
          (ok hash, s')
      → (felt : F.Felt) × (◌≡◌ {A = Result ProviderError F.Felt × N.State}
          (r, n)
          (ok felt, s'.node))
        × (hash ≡ F.to_bytes_be felt)
  submit-eq tx s s' hash (ok felt) n h = (
    felt,
    ap (λ (p : EthProviderResult Bytes × SendState E). (ok felt, p.1.node)) h,
    sym (
        ok_injective (F.to_bytes_be felt) hash
          (ap (λ (p : EthProviderResult Bytes × SendState E). p.0) h)),
  )
  submit-eq tx s s' hash (err e) n h = cc
  submit-eq tx s s' hash panic n h = cc

  pub send_raw_transaction-Submitted :
      (s s' : SendState E) (transaction hash : Bytes)
      → send_raw_transaction E tested s transaction ≡ (ok hash, s')
      → Submitted s s' transaction hash
  unfolding send_raw_transaction submit
  send_raw_transaction-Submitted s s' transaction hash h =
      of (prepare E tested s.node transaction) refl h
    where
      of :
          (r : EthProviderResult (X.TransactionSigned × Bytes × InvokeTransaction F))
          → prepare E tested s.node transaction ≡ r
          → send_prepared E tested r s ≡ (ok hash, s')
          → Submitted s s' transaction hash
      of (ok (tx, signer, invoke)) e h' =
          let answer = N.add_invoke_transaction s.node invoke in
          let (felt, added, same) = submit-eq tx s s' hash answer.0 answer.1 h' in
          record {
            tx = tx;
            signer = signer;
            invoke = invoke;
            prepared = e;
            felt = felt;
            added = added;
            hash_of = same;
          }
      of (err x) e h' = cc
      of panic e h' = cc

  -- How a transaction was prepared.
  pub record Prepared (s : N.State) (transaction : Bytes) (tx : X.TransactionSigned)
      (signer : Bytes) (invoke : InvokeTransaction F) : Type 0 where
    pub decoded : X.decode transaction ≡ ok tx
    pub recovered : X.recover_signer tx ≡ some signer
    pub id : ℕ
    pub fee : ℕ
    pub made : to_starknet_transaction F K X tx id signer fee ≡ ok invoke

  abbrev prepared_parts :
      X.TransactionSigned
      → Bytes
      → InvokeTransaction F
      → X.TransactionSigned × Bytes × InvokeTransaction F
  prepared_parts tx signer invoke = (tx, signer, invoke)

  pub prepare-Prepared :
      (s : N.State) (transaction : Bytes) (tx : X.TransactionSigned) (signer : Bytes)
      (invoke : InvokeTransaction F)
      → prepare E tested s transaction ≡ ok (tx, signer, invoke)
      → Prepared s transaction tx signer invoke
  unfolding prepare
  prepare-Prepared s transaction tx signer invoke h =
      let r = prepared_parts tx signer invoke in
      let (t, e1, h1) =
        >>=-eq-ok
          (or_conversion_error (map_err to_starknet_transaction_error (X.decode transaction))) _ r
          h in
      let (m, e2, h2) = >>=-eq-ok (chain_id E s) _ r h1 in
      let (i, e3, h3) =
        >>=-eq-ok
          (or_conversion_error (try_u64 (from_uint_error X.from_uint_message) (unwrap_or m 0))) _ r
          h2 in
      let (g, e4, h4) =
        >>=-eq-ok
          (or_conversion_error
            (ok_or (to_starknet_transaction_error "Failed to recover signer") (X.recover_signer t)))
          _ r h3 in
      let (f, e5, h5) = >>=-eq-ok (max_fee E tested s t g) _ r h4 in
      let (v, e6, h6) = >>=-eq-ok (to_starknet_transaction F K X t i g f) _ r h5 in
      let same = ok_injective (prepared_parts t g v) r h6 in
      let known : Prepared s transaction t g v = record {
        decoded =
            map_err-eq-ok to_starknet_transaction_error (X.decode transaction) t
              (map_err-eq-ok _ (map_err to_starknet_transaction_error (X.decode transaction)) t e1);
        recovered = ok_or-eq-ok _ (X.recover_signer t) g (
            map_err-eq-ok _
              (ok_or (to_starknet_transaction_error "Failed to recover signer")
                (X.recover_signer t))
              g e4);
        id = i;
        fee = f;
        made = e6;
      } in
      subst
        (λ (p : X.TransactionSigned × Bytes × InvokeTransaction F).
          Prepared s transaction p.0 p.1 p.2)
        same known

  pub invoke-nonce :
      (tx : X.TransactionSigned) (id : ℕ) (signer : Bytes) (fee : ℕ) (invoke : InvokeTransaction F)
      → to_starknet_transaction F K X tx id signer fee ≡ ok invoke
      → invoke.nonce ≡ F.from_uint (X.nonce tx)
  unfolding to_starknet_transaction
  invoke-nonce tx id signer fee invoke h =
      let (a, e1, h1) = >>=-eq-ok (starknet_address F K signer) _ invoke h in
      let (r, e2, h2) = >>=-eq-ok (split_u256 F.from_uint (X.signature_r tx)) _ invoke h1 in
      let (s, e3, h3) = >>=-eq-ok (split_u256 F.from_uint (X.signature_s tx)) _ invoke h2 in
      sym (ap (λ (v : Result EthProviderError (InvokeTransaction F)). nonce_in v) h3)
    where
      nonce_in : EthProviderResult (InvokeTransaction F) → F.Felt
      nonce_in (ok v) = v.nonce
      nonce_in (err e) = F.zero_felt
      nonce_in panic = F.zero_felt
