-- ===== src/Tests.antt =====
-- Concrete inputs: a small world, and the theorems applied in it.
mod World
mod Models
mod Provider
mod Calls
mod Sending
mod Rpc
mod Process
mod Genesis
mod Logs
mod Hive
mod Chain
mod Accounts
mod Setup
mod Start
