-- ===== src/EthProvider/Starknet/Invoke.antt =====
-- The Starknet transaction of an Ethereum transaction: who sends it, its signature, and the calldata
-- from which Kakarot reads the Ethereum transaction.
use kakarot_rpc.Prelude.{
  ℕ, ◌+◌, ◌*◌, ◌^◌, ◌<◌, ◌≡◌, refl, ap₂, true, false, inl, inr, Bool-cases, List, [], ◌∷◌, map,
  length, arith,
}
use kakarot_rpc.Prelude.Bytes.{Bytes, IsBytes, from_be_bytes}
use kakarot_rpc.Prelude.Result.{ok}
use kakarot_rpc.Felt.{FieldElement, IsField}
use kakarot_rpc.Models.Felt.Address.{felt_from_address_lem}
use kakarot_rpc.EthProvider.Error.{EthProviderError}
use kakarot_rpc.EthProvider.Utils.{split_u256}
use kakarot_rpc.EthProvider.Utils.SplitU256.{split_u256_total}
use kakarot_rpc.EthProvider.Starknet.{
  InvokeTransaction, Deployment, EthPrimitives, starknet_address, to_starknet_transaction,
  signature_end, execute_calldata,
}

module _ (F : FieldElement) (L : IsField F) where
  open L use {value, value-from_uint}

  pub value-from_bytes : (bs : Bytes) → IsBytes bs → map value (map F.from_uint bs) ≡ bs
  value-from_bytes [] h = refl
  value-from_bytes (b ∷ bs) h =
      ap₂ (λ x r. x ∷ r) (value-from_uint b (omega arith)) (value-from_bytes bs h.1)

  -- A word split into field elements of 128 bits.
  abbrev pub Halves : ℕ → F.Felt → F.Felt → Type 0
  Halves word low high = value low + value high * 2 ^ 128 ≡ word

  split_u256-Halves :
      (word : ℕ)
      → word < 2 ^ 256
      → (low : F.Felt) × (high : F.Felt) × (split_u256 {E = EthProviderError} F.from_uint word
          ≡ ok (low, high))
        × Halves word low high
  split_u256-Halves word h =
      let (low, high, e, bl, bh, sum) =
        split_u256_total {E = EthProviderError} F.from_uint word h in
      (
        F.from_uint low,
        F.from_uint high,
        e,
        omega (arith, value-from_uint low bl, value-from_uint high bh),
      )

module _ (F : FieldElement) (L : IsField F) (K : Deployment F) (X : EthPrimitives) where
  open L use {value, value-from_uint}

  -- The last element of a signature: `v` of a legacy transaction, else the parity of `y`.
  pub data EndOf (tx : X.TransactionSigned) (chain_id : ℕ) : ℕ → Type 0 where
    legacy : X.is_legacy tx ≡ true → EndOf tx chain_id (X.signature_v tx chain_id)
    odd : X.is_legacy tx ≡ false → X.odd_y_parity tx ≡ true → EndOf tx chain_id 1
    even : X.is_legacy tx ≡ false → X.odd_y_parity tx ≡ false → EndOf tx chain_id 0

  signature_end-EndOf :
      (tx : X.TransactionSigned) (chain_id : ℕ)
      → X.signature_v tx chain_id < 2 ^ 64
      → EndOf tx chain_id (value (signature_end F K X tx chain_id))
  signature_end-EndOf tx chain_id h = elim (Bool-cases (X.is_legacy tx)) [
    | inl l ↦ rw (l, value-from_uint (X.signature_v tx chain_id) (omega arith)) (EndOf.legacy l)
    | inr t ↦ elim (Bool-cases (X.odd_y_parity tx)) [
      | inl o ↦ rw (t, o, value-from_uint 1 (omega arith)) (EndOf.odd t o)
      | inr e ↦ rw (t, e, value-from_uint 0 (omega arith)) (EndOf.even t e)
    ]
  ]

  -- What Kakarot reads from an invoke transaction `t`: the account of the signer sends it; its
  -- signature holds `r` and `s` in halves and then `v` or the parity; its calldata is one call of
  -- `eth_send_transaction` whose data is the encoded transaction.
  pub record IsInvokeOf (tx : X.TransactionSigned) (chain_id : ℕ) (signer : Bytes) (fee : ℕ)
      (t : InvokeTransaction F) : Type 0 where
    pub salt : F.Felt
    pub salt_value : value salt ≡ from_be_bytes signer
    pub sender :
        t.sender_address
        ≡ K.get_contract_address salt K.proxy_account_class_hash [] K.kakarot_address
    pub max_fee : value t.max_fee ≡ fee
    pub nonce : value t.nonce ≡ X.nonce tx
    pub r_low : F.Felt
    pub r_high : F.Felt
    pub s_low : F.Felt
    pub s_high : F.Felt
    pub last : F.Felt
    pub signature : t.signature ≡ r_low ∷ r_high ∷ s_low ∷ s_high ∷ last ∷ []
    pub ends : EndOf tx chain_id (value last)
    pub r_halves : Halves F L (X.signature_r tx) r_low r_high
    pub s_halves : Halves F L (X.signature_s tx) s_low s_high
    pub size : F.Felt
    pub payload : List F.Felt
    pub calldata :
        t.calldata
        ≡ F.one_felt ∷ K.kakarot_address ∷ K.eth_send_transaction ∷ F.zero_felt ∷ size ∷ size
          ∷ payload
    pub size_value : value size ≡ length (X.encode_without_signature tx)
    pub payload_value : map value payload ≡ X.encode_without_signature tx

  -- For a signer of 20 bytes, a signature of 256-bit words, a 64-bit v, nonce and fee and an
  -- encoding of fewer than 2^128 bytes, the conversion to a Starknet transaction succeeds, and from
  -- the result Kakarot reads back the transaction: the signer's account, the fee, the nonce, the
  -- halves of r and s, then v for a legacy transaction and the parity for a typed one, and one call
  -- whose data is the encoding.
  pub to_starknet_transaction-IsInvokeOf :
      (tx : X.TransactionSigned) (chain_id : ℕ) (signer : Bytes) (fee : ℕ)
      → length signer ≡ 20
      → IsBytes signer
      → X.signature_r tx < 2 ^ 256
      → X.signature_s tx < 2 ^ 256
      → X.signature_v tx chain_id < 2 ^ 64
      → X.nonce tx < 2 ^ 64
      → fee < 2 ^ 64
      → IsBytes (X.encode_without_signature tx)
      → length (X.encode_without_signature tx) < 2 ^ 128
      → (t : InvokeTransaction F) × (to_starknet_transaction F K X tx chain_id signer fee ≡ ok t)
        × IsInvokeOf tx chain_id signer fee t
  unfolding to_starknet_transaction starknet_address
  to_starknet_transaction-IsInvokeOf tx chain_id signer fee w b hr hs hv hn hf he hl =
      let (salt, es, vs) = felt_from_address_lem F L {E = EthProviderError} signer w b in
      let (r0, r1, er, rh) = split_u256-Halves F L (X.signature_r tx) hr in
      let (s0, s1, e', sh) = split_u256-Halves F L (X.signature_s tx) hs in
      (
        record {
          max_fee = F.from_uint fee;
          signature = r0 ∷ r1 ∷ s0 ∷ s1 ∷ signature_end F K X tx chain_id ∷ [];
          nonce = F.from_uint (X.nonce tx);
          sender_address =
              K.get_contract_address salt K.proxy_account_class_hash [] K.kakarot_address;
          calldata = execute_calldata F K X (X.encode_without_signature tx);
          is_query = false;
        },
        rw (es, er, e'),
        record {
          salt = salt;
          salt_value = vs;
          sender = refl;
          max_fee = value-from_uint fee (omega arith);
          nonce = value-from_uint (X.nonce tx) (omega arith);
          r_low = r0;
          r_high = r1;
          s_low = s0;
          s_high = s1;
          last = signature_end F K X tx chain_id;
          signature = refl;
          ends = signature_end-EndOf tx chain_id hv;
          r_halves = rh;
          s_halves = sh;
          size = F.from_uint (length (X.encode_without_signature tx));
          payload = map F.from_uint (X.encode_without_signature tx);
          calldata = refl;
          size_value = value-from_uint (length (X.encode_without_signature tx)) hl;
          payload_value = value-from_bytes F L (X.encode_without_signature tx) he;
        },
      )
