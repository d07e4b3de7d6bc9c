-- ===== src/EthRpc.antt =====
-- The JSON-RPC servers (src/eth_rpc).
pub mod Erc20
pub mod Eth
pub mod Alchemy
pub mod Net
pub mod Names
pub mod Module
pub mod Server
