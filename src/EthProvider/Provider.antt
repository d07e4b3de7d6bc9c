-- ===== src/EthProvider/Provider.antt =====
-- `EthDataProvider` (src/eth_provider/provider.rs): the methods of the trait `EthereumProvider`
-- over a database and a node. Each takes the state of the node; only `send_raw_transaction`
-- changes it.
pub mod Blocks
pub mod Accounts
pub mod Calls
pub mod Logs
pub mod Fees
pub mod Send
use kakarot_rpc.Prelude.{ℕ, ◌^◌, ltb, if◌then◌else◌}
use kakarot_rpc.Prelude.Result.{Result, ok, err, map_err}
use kakarot_rpc.Felt.{FieldElement}
use kakarot_rpc.Models.Errors.{ConversionError, from_uint_error}
use kakarot_rpc.EthProvider.Error.{
  EthProviderError, ProviderError, CallError, starknet_provider_error, contract_call_error,
  conversion_error,
}
use kakarot_rpc.EthProvider.Database.{MongoDatabase, EthProviderResult}
use kakarot_rpc.EthProvider.Starknet.{StarknetProvider, Deployment, EthPrimitives}

-- What the provider is built on.
pub record Environment : Type 1 where
  pub field : FieldElement
  pub database : MongoDatabase
  pub node : StarknetProvider field
  pub deployment : Deployment field
  pub primitives : EthPrimitives

-- The conversions of `?` into `EthProviderError`.
module _ {ℓ} {A : Type ℓ} where
  abbrev pub or_provider_error : Result ProviderError A → EthProviderResult A
  or_provider_error = map_err starknet_provider_error

  abbrev pub or_call_error : Result CallError A → EthProviderResult A
  or_call_error = map_err contract_call_error

  abbrev pub or_conversion_error : Result ConversionError A → EthProviderResult A
  or_conversion_error = map_err conversion_error

-- `TryFrom<U256> for u64` and `TryFrom<U64> for u64`, where `message` is the text of the error.
abbrev pub try_u64 : ConversionError → ℕ → Result ConversionError ℕ
try_u64 e v = if ltb v (2 ^ 64) then ok v else err e
