-- ===== src/EthRpc/Net.antt =====
-- The servers of the namespaces `net` and `web3` (src/eth_rpc/servers/net_rpc.rs, web3_rpc.rs).
use kakarot_rpc.Prelude.{ℕ, String, ◌<>◌, Bool, true, false, unwrap_or}
use kakarot_rpc.Prelude.Bytes.{Bytes}
use kakarot_rpc.Prelude.Result.{Result, ok, ◌>>=◌, map_err}
use kakarot_rpc.EthProvider.Error.{Messages, ErrorObject, error_object}
use kakarot_rpc.EthProvider.Interface.{EthereumProvider}

module _ (P : EthereumProvider) (m : Messages) where
  unfoldable pub version : P.State → Result ErrorObject ℕ
  version s = do id ← map_err (error_object m) (P.chain_id s); ok (unwrap_or id 0)

  -- `PeerCount::Number(0)`
  abbrev pub peer_count : Result ErrorObject ℕ
  peer_count = ok 0

  abbrev pub listening : Result ErrorObject Bool
  listening = ok false

  unfoldable pub health : P.State → Result ErrorObject Bool
  health s = do _ ← map_err (error_object m) (P.block_number s); ok true

-- `CARGO_PKG_VERSION` is set by the build, and `keccak256` is of `reth`.
module _ (package_version : String) (keccak256 : Bytes → Bytes) where
  abbrev pub client_version : Result ErrorObject String
  client_version = ok ("kakarot_" <> package_version)

  abbrev pub sha3 : Bytes → Result ErrorObject Bytes
  sha3 input = ok (keccak256 input)
