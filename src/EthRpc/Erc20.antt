-- ===== src/EthRpc/Erc20.antt =====
-- The ERC20 client that the servers use (src/eth_provider/contracts/erc20.rs).
use kakarot_rpc.Prelude.{ℕ, Option, none, some}
use kakarot_rpc.Prelude.Bytes.{Bytes}
use kakarot_rpc.Prelude.Result.{◌>>=◌, ok_or}
use kakarot_rpc.Models.Errors.{uint_conversion_error}
use kakarot_rpc.Models.Block.{BlockId}
use kakarot_rpc.EthProvider.Database.{EthProviderResult}
use kakarot_rpc.EthProvider.Provider.{or_conversion_error}
use kakarot_rpc.EthProvider.Provider.Calls.{TransactionRequest, zero_address}
use kakarot_rpc.EthProvider.Interface.{EthereumProvider}

-- What `abigen!` and `ruint` give: the calldata of `balanceOf`, and `U256::try_from_be_slice`.
pub record TokenAbi : Type 0 where
  pub encode_balance_of : Bytes → Bytes
  pub try_from_be_slice : Bytes → Option ℕ

module _ (P : EthereumProvider) (abi : TokenAbi) where
  abbrev pub balance_request : Bytes → Bytes → TransactionRequest
  balance_request token evm_address = record {
    from = some zero_address;
    to = some token;
    gas_price = some 0;
    gas = some 1_000_000;
    value = some 0;
    input = some (abi.encode_balance_of evm_address);
    input_data = none;
    nonce = none;
  }

  unfoldable pub balance_of : P.State → Bytes → Bytes → BlockId → EthProviderResult ℕ
  balance_of s token evm_address block_id = do
    ret ← P.call s (balance_request token evm_address) (some block_id)
    or_conversion_error (
        ok_or (uint_conversion_error "Failed to convert call return to U256")
          (abi.try_from_be_slice ret))
