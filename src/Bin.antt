-- ===== src/Bin.antt =====
-- The binaries (src/bin): what they compute of the files that they read. Reading the environment
-- and the files, and writing the results, is left out.
pub mod Genesis
pub mod Manifest
pub mod Prefunded
pub mod HiveChain
