-- ===== src/TestUtils/Eoa/Transferred.antt =====
-- What a transfer of an account gives to the node (src/test_utils/eoa.rs).
use kakarot_rpc.Prelude.{ℕ, [], ◌≡◌, refl, sym, ap, ap₂, ◌∙◌, subst, arith}
use kakarot_rpc.Prelude.Bytes.{Bytes}
use kakarot_rpc.Prelude.Result.{Result, ok, err, panic, map_err}
use kakarot_rpc.Models.Errors.{ConversionError, from_uint_error}
use kakarot_rpc.EthProvider.Database.{EthProviderResult}
use kakarot_rpc.EthProvider.Database.Reads.{>>=-eq-ok, ok_injective, map_err-eq-ok}
use kakarot_rpc.EthProvider.Starknet.{InvokeTransaction, to_starknet_transaction}
use kakarot_rpc.EthProvider.Provider.{Environment, try_u64}
use kakarot_rpc.EthProvider.Provider.Send.{SendState, send_raw_transaction}
use kakarot_rpc.TestUtils.EvmContract.{EyreError, TransactionKind, TxEip1559, tx_gas_limit}
use kakarot_rpc.TestUtils.Eoa.{
  Signing, nonce, nonce_u64, chain_id_u64, sign_transaction, send_transaction, send_signed,
  eyre_reply, transfer_signed, transfer,
}
use kakarot_rpc.TestUtils.Eoa.Sent.{
  tested, Submitted, send_raw_transaction-Submitted, prepare-Prepared, invoke-nonce,
}

module _ (E : Environment) where
  open E use {field as F, node as N, deployment as K, primitives as X}

  module _ (S : Signing E) where
    -- What `reth` documents of its encoding and of a signed transaction.
    pub record SigningLaws : Type 0 where
      pub decode-encode : (tx : X.TransactionSigned) → X.decode (S.encode_enveloped tx) ≡ ok tx
      pub nonce-signed :
          (tx : TxEip1559) (g : S.Signature)
          → X.nonce (S.from_transaction_and_signature tx g) ≡ tx.nonce

    -- What the node is given by a transfer of an account.
    pub record Transferred (s s' : SendState E) (private_key to : Bytes) (value : ℕ) (hash : Bytes)
        : Type 0 where
      pub count : ℕ
      pub nonce_known : nonce E S s.node private_key ≡ ok count
      pub tx : TxEip1559
      pub at_nonce : tx.nonce ≡ count
      pub to_address : tx.to ≡ TransactionKind.call to
      pub of_value : tx.value ≡ value
      pub gas_limited : tx.gas_limit ≡ 5_000_000
      pub signature : S.Signature
      pub signed : S.sign_message private_key (S.signature_hash tx) ≡ ok signature
      pub signer : Bytes
      pub id : ℕ
      pub fee : ℕ
      pub invoke : InvokeTransaction F
      pub made :
          to_starknet_transaction F K X
            (S.from_transaction_and_signature tx signature)
            id
            signer
            fee
          ≡ ok invoke
      pub invoke_nonce : invoke.nonce ≡ F.from_uint count
      pub felt : F.Felt
      pub added : N.add_invoke_transaction s.node invoke ≡ (ok felt, s'.node)
      pub hash_of : hash ≡ F.to_bytes_be felt

    -- The transaction of a transfer, before it is signed.
    abbrev transfer_tx : ℕ → ℕ → Bytes → ℕ → TxEip1559
    transfer_tx count id to value = record {
      chain_id = id;
      nonce = count;
      max_priority_fee_per_gas = 0;
      max_fee_per_gas = 0;
      gas_limit = tx_gas_limit;
      to = TransactionKind.call to;
      value = value;
      input = [];
    }

    record SignedTransfer (s : N.State) (private_key to : Bytes) (value : ℕ)
        (tx : X.TransactionSigned) : Type 0 where
      count : ℕ
      nonce_known : nonce E S s private_key ≡ ok count
      id : ℕ
      signature : S.Signature
      signed :
          S.sign_message private_key (S.signature_hash (transfer_tx count id to value))
          ≡ ok signature
      result : S.from_transaction_and_signature (transfer_tx count id to value) signature ≡ tx

    -- `try_into` keeps the number.
    try_u64-same :
        (e : ConversionError) (v count : ℕ)
        → ◌≡◌ {A = Result EyreError ℕ} (map_err EyreError.conversion (try_u64 e v)) (ok count)
        → v ≡ count
    try_u64-same e v count h = ground arith

    transfer_signed-SignedTransfer :
        (s : N.State) (private_key to : Bytes) (value : ℕ) (tx : X.TransactionSigned)
        → transfer_signed E S tested s private_key to value ≡ ok tx
        → SignedTransfer s private_key to value tx
    unfolding transfer_signed sign_transaction
    transfer_signed-SignedTransfer s private_key to value tx h =
        let (count, e1, h1) = >>=-eq-ok (nonce_u64 E S s private_key) _ tx h in
        let (v, e2, k2) = >>=-eq-ok (nonce E S s private_key) _ count e1 in
        let (id, e3, h3) = >>=-eq-ok (chain_id_u64 E S s) _ tx h1 in
        let (g, e4, h4) =
          >>=-eq-ok
            (map_err EyreError.message
              (S.sign_message private_key (S.signature_hash (transfer_tx count id to value))))
            _ tx h3 in
        record {
          count = count;
          nonce_known = e2 ∙ ap ok (try_u64-same (from_uint_error X.from_uint_message) v count k2);
          id = id;
          signature = g;
          signed = map_err-eq-ok EyreError.message _ g e4;
          result =
              ok_injective (S.from_transaction_and_signature (transfer_tx count id to value) g) tx
                h4;
        }

    eyre_reply-eq :
        (r : EthProviderResult Bytes × SendState E) (hash : Bytes) (s' : SendState E)
        → eyre_reply E S tested r ≡ (ok hash, s')
        → ◌≡◌ {A = EthProviderResult Bytes × SendState E} r (ok hash, s')
    eyre_reply-eq (ok b, s) hash s' h =
        ap₂ (λ (x : Bytes) (y : SendState E). (ok x, y))
          (ok_injective b hash (ap (λ (p : Result EyreError Bytes × SendState E). p.0) h))
          (ap (λ (p : Result EyreError Bytes × SendState E). p.1) h)
    eyre_reply-eq (err e, s) hash s' h = cc
    eyre_reply-eq (panic, s) hash s' h = cc

    signed-Transferred :
        SigningLaws
        → (s s' : SendState E) (private_key to : Bytes) (value : ℕ) (hash : Bytes)
          (tx : X.TransactionSigned)
        → SignedTransfer s.node private_key to value tx
        → Submitted E s s' (S.encode_enveloped tx) hash
        → Transferred s s' private_key to value hash
    signed-Transferred L s s' private_key to value hash tx t u =
        let p =
          prepare-Prepared E s.node (S.encode_enveloped tx) u.tx u.signer u.invoke u.prepared in
        let signed =
          S.from_transaction_and_signature (transfer_tx t.count t.id to value) t.signature in
        let same : u.tx ≡ signed =
          ok_injective u.tx signed (sym p.decoded ∙ L.decode-encode tx ∙ ap ok (sym t.result)) in
        let made : to_starknet_transaction F K X signed p.id u.signer p.fee ≡ ok u.invoke =
          subst (λ x. to_starknet_transaction F K X x p.id u.signer p.fee ≡ ok u.invoke) same
            p.made in
        record {
          count = t.count;
          nonce_known = t.nonce_known;
          tx = transfer_tx t.count t.id to value;
          at_nonce = refl;
          to_address = refl;
          of_value = refl;
          gas_limited = refl;
          signature = t.signature;
          signed = t.signed;
          signer = u.signer;
          id = p.id;
          fee = p.fee;
          invoke = u.invoke;
          made = made;
          invoke_nonce =
              invoke-nonce E signed p.id u.signer p.fee u.invoke made
              ∙ ap F.from_uint (L.nonce-signed (transfer_tx t.count t.id to value) t.signature);
          felt = u.felt;
          added = u.added;
          hash_of = u.hash_of;
        }

    -- If `reth` decodes what it encodes and a signed transaction keeps its nonce, then a transfer
    -- that succeeds, in the build for tests without `hive`, gave the node one Starknet transaction,
    -- made of the transfer that the account signed: to the address, of the value, with the gas
    -- limit of 5,000,000, and at the account's transaction count, in both transactions. The reply
    -- is the hash that the node gave the Starknet transaction, in 32 bytes.
    pub transfer-Transferred :
        SigningLaws
        → (s s' : SendState E) (private_key to : Bytes) (value : ℕ) (hash : Bytes)
        → transfer E S tested s private_key to value ≡ (ok hash, s')
        → Transferred s s' private_key to value hash
    unfolding transfer send_transaction
    transfer-Transferred L s s' private_key to value hash h =
        of (transfer_signed E S tested s.node private_key to value) refl h
      where
        of :
            (r : Result EyreError X.TransactionSigned)
            → transfer_signed E S tested s.node private_key to value ≡ r
            → send_signed E S tested s r ≡ (ok hash, s')
            → Transferred s s' private_key to value hash
        of (ok tx) e h' =
            signed-Transferred L s s' private_key to value hash tx
              (transfer_signed-SignedTransfer s.node private_key to value tx e)
              (send_raw_transaction-Submitted E s s' (S.encode_enveloped tx) hash (
                eyre_reply-eq (send_raw_transaction E tested s (S.encode_enveloped tx)) hash s' h'))
        of (err x) e h' = cc
        of panic e h' = cc
