-- ===== src/EthRpc/Alchemy.antt =====
-- The server of the namespace `alchemy` (src/eth_rpc/servers/alchemy_rpc.rs).
pub mod Entries
use kakarot_rpc.Prelude.{List, map}
use kakarot_rpc.Prelude.Bytes.{Bytes}
use kakarot_rpc.Prelude.Result.{Result, ok, ◌>>=◌, try_collect}
use kakarot_rpc.Models.Block.{BlockId, BlockNumberOrTag}
use kakarot_rpc.Models.Balance.{TokenBalance, TokenBalances, token_balance_of}
use kakarot_rpc.EthProvider.Error.{Messages, ErrorObject}
use kakarot_rpc.EthProvider.Interface.{EthereumProvider}
use kakarot_rpc.EthRpc.Erc20.{TokenAbi, balance_of}

abbrev pub latest_block : BlockId
latest_block = BlockId.number BlockNumberOrTag.latest

module _ (P : EthereumProvider) (m : Messages) (abi : TokenAbi) where
  -- One future, awaited: it is polled until the balance is ready.
  abbrev pub token_balance : P.State → Bytes → Bytes → Result ErrorObject TokenBalance
  token_balance s address token =
      token_balance_of m token (balance_of P abi s token address latest_block)

  -- `join_all(…).await` has the outputs of the futures in their order.
  unfoldable pub token_balances : P.State → Bytes → List Bytes → Result ErrorObject TokenBalances
  unfolding token_balance_of
  token_balances s address token_addresses = do
    balances ← try_collect (map (token_balance s address) token_addresses)
    ok (record { address = address; token_balances = balances })
