-- ===== src/EthProvider/Provider/Calls/Answered.antt =====
-- What `eth_call` and `eth_estimateGas` reply to an answer of the Kakarot contract.
use kakarot_rpc.Prelude.{
  ℕ, ◌^◌, ◌<◌, ◌≤◌, ◌-◌, ◌≡◌, ◌≢◌, refl, sym, ap, ◌∙◌, Option, some, unwrap_or, List, [], ◌∷◌, map,
  filter_map, length, arith, ltb, lt→ltb, le→not-ltb, dec_lt, if◌then◌else◌,
}
use kakarot_rpc.Prelude.Bytes.{Bytes, IsBytes}
use kakarot_rpc.Prelude.Chars.{string_of_bytes}
use kakarot_rpc.Prelude.Result.{ok, err, ◌>>=◌}
use kakarot_rpc.Felt.{IsField, stark_prime}
use kakarot_rpc.Models.Errors.{ConversionError}
use kakarot_rpc.Models.Felt.{u128_from_felt}
use kakarot_rpc.Models.Block.{BlockId, StarknetBlockId}
use kakarot_rpc.EthProvider.Database.{EthProviderResult}
use kakarot_rpc.EthProvider.Error.{EthProviderError}
use kakarot_rpc.EthProvider.Starknet.{EthCall, CallOutput}
use kakarot_rpc.EthProvider.Provider.{Environment, or_conversion_error}
use kakarot_rpc.EthProvider.Provider.Blocks.{State, to_starknet_block_id}
use kakarot_rpc.EthProvider.Provider.Calls.{
  TransactionRequest, call_request_gas_limit, call_helper, call_result, call, estimate_gas,
}
use kakarot_rpc.EthProvider.Provider.Calls.Sent.{input_of, Says, call_helper-Says}

module _ (E : Environment) (L : IsField E.field) where
  open E use {field as F, node as N, deployment as K}
  open L use {value}

  -- The numbers of a list that are bytes.
  abbrev pub bytes_among : List ℕ → Bytes
  bytes_among [] = []
  bytes_among (n ∷ ns) = let rest = bytes_among ns in if ltb n 256 then n ∷ rest else rest

  filter_map-bytes_among :
      (fs : List F.Felt) → filter_map (F.try_uint 8) fs ≡ bytes_among (map value fs)
  filter_map-bytes_among [] = refl
  filter_map-bytes_among (f ∷ fs) = elim (dec_lt (value f) 256) [
    | yes h ↦
        rw (L.try_uint-fits 8 f h, lt→ltb (value f) 256 h)
          (ap (λ r. value f ∷ r) (filter_map-bytes_among fs))
    | no h ↦
        rw (L.try_uint-exceeds 8 f (omega arith), le→not-ltb (value f) 256 (omega arith))
          (filter_map-bytes_among fs)
  ]

  -- The reply to an answer: `good` if the call succeeded and its gas has 128 bits.
  pub data Answered {A : Type 0} (out : CallOutput F) (good : A)
      : EthProviderResult A → Type 0 where
    reverted :
        value out.success ≡ 0
        → Answered out good (
            err (
              EthProviderError.evm_execution_error
                (string_of_bytes (bytes_among (map value out.return_data)))))
    too_much_gas :
        (e : ConversionError)
        → value out.success ≢ 0
        → 2 ^ 128 ≤ value out.gas_used
        → Answered out good (err (EthProviderError.conversion_error e))
    succeeded : value out.success ≢ 0 → value out.gas_used < 2 ^ 128 → Answered out good (ok good)

  -- `call_result`, once the test of `success` is decided.
  abbrev decided :
      (out : CallOutput F) → Dec (out.success ≡ F.zero_felt) → EthProviderResult (List F.Felt × ℕ)
  decided out (yes _) = err (
      EthProviderError.evm_execution_error
        (string_of_bytes (filter_map (F.try_uint 8) out.return_data)))
  decided out (no _) = do
    gas_used ← or_conversion_error (u128_from_felt F out.gas_used)
    ok (out.return_data, gas_used)

  call_result-decided :
      (out : CallOutput F) → call_result E out ≡ decided out (F.felt_eq out.success F.zero_felt)
  call_result-decided out =
      elim (F.felt_eq out.success F.zero_felt)
        as (λ d.
          elim d [
            | yes _ ↦ err (
                EthProviderError.evm_execution_error
                  (string_of_bytes (filter_map (F.try_uint 8) out.return_data)))
            | no _ ↦ do
              gas_used ← or_conversion_error (u128_from_felt F out.gas_used)
              ok (out.return_data, gas_used)
          ]
          ≡ decided out d) [ yes z ↦ refl | no n ↦ refl ]

  decided-Answered :
      {A : Type 0} (out : CallOutput F) (f : List F.Felt × ℕ → A) (good : A)
      (d : Dec (out.success ≡ F.zero_felt))
      → f (out.return_data, value out.gas_used) ≡ good
      → Answered out good (decided out d >>= λ p. ok (f p))
  unfolding u128_from_felt
  decided-Answered out f good (yes z) e =
      rw (filter_map-bytes_among out.return_data)
        (Answered.reverted (ap value z ∙ L.value-zero_felt))
  decided-Answered out f good (no n) e =
      let there : value out.success ≢ 0 =
        λ h. n (L.value_injective out.success F.zero_felt (h ∙ sym L.value-zero_felt)) in
      elim (dec_lt (value out.gas_used) (2 ^ 128)) [
        | yes h ↦ rw (L.try_uint-fits 128 out.gas_used h, e) (Answered.succeeded there h)
        | no h ↦
            rw (L.try_uint-exceeds 128 out.gas_used (omega arith))
              (Answered.too_much_gas _ there (omega arith))
      ]

  module _ (s : State E) (r : TransactionRequest) (block_id : Option BlockId)
      (id : StarknetBlockId F) (from to : Bytes) (nonce : ℕ)
      (known : to_starknet_block_id E block_id ≡ ok id) (at_from : r.from ≡ some from)
      (from_length : length from ≡ 20) (from_bytes : IsBytes from) (at_to : r.to ≡ some to)
      (to_length : length to ≡ 20) (to_bytes : IsBytes to) (at_nonce : r.nonce ≡ some nonce)
      (nonce_fits : nonce < 2 ^ 64) (price_fits : unwrap_or r.gas_price 0 < stark_prime)
      (amount_fits : unwrap_or r.value 0 < stark_prime) (input_bytes : IsBytes (input_of E L r))
      (input_fits : length (input_of E L r) < 2 ^ 128) where
    Answered-with :
        {A : Type 0} (gas : Option ℕ) (out : CallOutput F) (f : List F.Felt × ℕ → A) (good : A)
        → unwrap_or gas call_request_gas_limit < stark_prime
        → ((c : EthCall F)
            → Says E L (record r { gas = gas }) from to nonce c
            → N.eth_call s K.kakarot_address c id ≡ ok out)
        → f (out.return_data, value out.gas_used) ≡ good
        → Answered out good (call_helper E s (record r { gas = gas }) block_id >>= λ p. ok (f p))
    Answered-with gas out f good gas_fits answer e =
        let (c, says, sent) =
          call_helper-Says E L s (record r { gas = gas }) block_id id from to nonce known at_from
            from_length from_bytes at_to to_length to_bytes at_nonce nonce_fits gas_fits price_fits
            amount_fits input_bytes input_fits in
        rw (sent, answer c says, call_result-decided out)
          (decided-Answered out f good (F.felt_eq out.success F.zero_felt) e)

    -- Between two addresses, with a 64-bit nonce and numbers below the prime, if the Kakarot
    -- contract has an answer for what `eth_call` sends and one for what `eth_estimateGas` sends,
    -- which has the greatest 64-bit number as its gas limit, then each replies by its answer. One
    -- without success is the error of a failed execution, with the bytes among the return data as
    -- its reason. Else the reply is the bytes among the return data, or the gas, if the gas has 128
    -- bits, and the error of a conversion if it has more.
    pub call-Answered :
        (out estimated : CallOutput F)
        → unwrap_or r.gas call_request_gas_limit < stark_prime
        → ((c : EthCall F)
            → Says E L r from to nonce c
            → N.eth_call s K.kakarot_address c id ≡ ok out)
        → ((c : EthCall F)
            → Says E L (record r { gas = some (2 ^ 64 - 1) }) from to nonce c
            → N.eth_call s K.kakarot_address c id ≡ ok estimated)
        → Answered out (bytes_among (map value out.return_data)) (call E s r block_id)
          × Answered estimated (value estimated.gas_used) (estimate_gas E s r block_id)
    unfolding call estimate_gas
    call-Answered out estimated gas_fits answer estimate = (
      Answered-with r.gas out (λ p. filter_map (F.try_uint 8) p.0)
          (bytes_among (map value out.return_data)) gas_fits answer
          (filter_map-bytes_among out.return_data),
      Answered-with (some (2 ^ 64 - 1)) estimated (λ p. p.1) (value estimated.gas_used)
          (omega arith) estimate refl,
    )
