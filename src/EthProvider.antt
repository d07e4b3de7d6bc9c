-- ===== src/EthProvider.antt =====
-- The Ethereum provider over a database and a Starknet node (src/eth_provider).
pub mod Error
pub mod Utils
pub mod Document
pub mod Database
pub mod Starknet
pub mod Provider
pub mod Interface
