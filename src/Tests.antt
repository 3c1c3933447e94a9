-- ===== src/Tests.antt =====
-- Runs on a small database.
pub mod Races
pub mod Settling
pub mod Data
pub mod Wallets
pub mod Services
pub mod Settlements
pub mod Syncs
pub mod Payments
pub mod Accounts
pub mod Fetches
