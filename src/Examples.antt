-- ===== src/Examples.antt =====
-- The theorems at concrete inputs, and tests of the definitions.
pub mod Setup
mod Funds
mod Forms
mod Votes
mod Chains
mod Calls
mod Peers
mod Pools
mod Tools
mod Wallets
