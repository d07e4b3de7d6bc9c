-- ===== src/Models.antt =====
-- The conversions between Ethereum and Starknet types (src/models).
pub mod Errors
pub mod Felt
pub mod Block
pub mod Balance
