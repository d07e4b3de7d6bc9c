-- ===== src/EthProvider/Provider/Calls/Sent.antt =====
-- What a call sends to the Kakarot contract, and what becomes of the answer.
use kakarot_rpc.Prelude.{
  ℕ, ◌^◌, ◌<◌, ◌≡◌, refl, ap, ◌∙◌, Option, some, unwrap_or, [], map, length, length-map, arith,
}
use kakarot_rpc.Prelude.Bytes.{Bytes, IsBytes, from_be_bytes}
use kakarot_rpc.Prelude.Result.{ok, ◌>>=◌}
use kakarot_rpc.Felt.{IsField, stark_prime}
use kakarot_rpc.Models.Felt.Words.{felt_from_u256-fits}
use kakarot_rpc.Models.Felt.Address.{felt_from_address_lem}
use kakarot_rpc.Models.Block.{BlockId, StarknetBlockId}
use kakarot_rpc.EthProvider.Error.{EthProviderError}
use kakarot_rpc.EthProvider.Starknet.Invoke.{value-from_bytes}
use kakarot_rpc.EthProvider.Starknet.{EthCall}
use kakarot_rpc.EthProvider.Provider.{Environment, or_call_error}
use kakarot_rpc.EthProvider.Provider.Blocks.{State, to_starknet_block_id}
use kakarot_rpc.EthProvider.Provider.Calls.{
  TransactionRequest, call_request_gas_limit, call_helper, call_result,
}

module _ (E : Environment) (L : IsField E.field) where
  open E use {field as F, node as N, deployment as K, primitives as X}
  open L use {value}

  -- The input of a request, of either field.
  abbrev pub input_of : TransactionRequest → Bytes
  input_of r = unwrap_or (X.into_input r.input r.input_data) []

  -- A call `c` says what the request from `from` to `to` with a nonce says.
  pub record Says (r : TransactionRequest) (from to : Bytes) (nonce : ℕ) (c : EthCall F)
      : Type 0 where
    pub origin : value c.origin ≡ from_be_bytes from
    pub has_target : c.to.is_some ≡ F.one_felt
    pub target : value c.to.value ≡ from_be_bytes to
    pub nonce_value : value c.nonce ≡ nonce
    pub gas_limit : value c.gas_limit ≡ unwrap_or r.gas call_request_gas_limit
    pub gas_price : value c.gas_price ≡ unwrap_or r.gas_price 0
    pub amount : value c.value.low ≡ unwrap_or r.value 0
    pub no_high : c.value.high ≡ F.zero_felt
    pub input : map value c.calldata ≡ input_of r
    pub input_length : value c.data_len ≡ length (input_of r)

  -- A request between two addresses, with a 64-bit nonce and numbers below the prime, goes to the
  -- Kakarot contract as a call that says the same, at the block of the request; the result is what
  -- `call_result` makes of the answer. With no gas given the limit is 5,000,000.
  pub call_helper-Says :
      (s : State E) (r : TransactionRequest) (block_id : Option BlockId) (id : StarknetBlockId F)
      (from to : Bytes) (nonce : ℕ)
      → to_starknet_block_id E block_id ≡ ok id
      → r.from ≡ some from
      → length from ≡ 20
      → IsBytes from
      → r.to ≡ some to
      → length to ≡ 20
      → IsBytes to
      → r.nonce ≡ some nonce
      → nonce < 2 ^ 64
      → unwrap_or r.gas call_request_gas_limit < stark_prime
      → unwrap_or r.gas_price 0 < stark_prime
      → unwrap_or r.value 0 < stark_prime
      → IsBytes (input_of r)
      → length (input_of r) < 2 ^ 128
      → (c : EthCall F) × Says r from to nonce c
        × (call_helper E s r block_id
            ≡ (or_call_error (N.eth_call s K.kakarot_address c id) >>= call_result E))
  unfolding call_helper
  call_helper-Says s r block_id id from to nonce known ef lf bf et lt bt en hn hg hp hv bi li =
      let (origin, eo, vo) = felt_from_address_lem F L {E = EthProviderError} from lf bf in
      let (target, eg, vt) = felt_from_address_lem F L {E = EthProviderError} to lt bt in
      let (limit, el, vl) = felt_from_u256-fits F L (unwrap_or r.gas call_request_gas_limit) hg in
      let (price, ep, vp) = felt_from_u256-fits F L (unwrap_or r.gas_price 0) hp in
      let (amount, ea, va) = felt_from_u256-fits F L (unwrap_or r.value 0) hv in
      (
        record {
          nonce = F.from_uint nonce;
          origin = origin;
          to = record { is_some = F.one_felt; value = target };
          gas_limit = limit;
          gas_price = price;
          value = record { low = amount; high = F.zero_felt };
          data_len = F.from_uint (length (map F.from_uint (input_of r)));
          calldata = map F.from_uint (input_of r);
          access_list_len = F.zero_felt;
          access_list = [];
        },
        record {
          origin = vo;
          has_target = refl;
          target = vt;
          nonce_value = L.value-from_uint nonce (omega arith);
          gas_limit = vl;
          gas_price = vp;
          amount = va;
          no_high = refl;
          input = value-from_bytes F L (input_of r) bi;
          input_length =
              ap (λ n. value (F.from_uint n)) (length-map F.from_uint (input_of r))
              ∙ L.value-from_uint _ li;
        },
        rw (known, ef, et, en, eo, eg, el, ep, ea),
      )
