-- ===== src/Witnesses.antt =====
-- Theorems applied at concrete inputs, and the inputs.
mod Data
mod Small
mod Doors
mod Days
mod Prices
mod Bulk
mod Completions
mod Keys
mod Limits
mod Accounts
