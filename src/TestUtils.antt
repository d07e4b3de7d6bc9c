-- ===== src/TestUtils.antt =====
-- The test utilities (src/test_utils) that have logic of their own.
pub mod TxWaiter
pub mod Genesis
pub mod Hive
pub mod Mongo
pub mod EvmContract
pub mod Eoa
