-- ===== src/Cash.antt =====
-- apps/api/src/modules/cash: daily cash declarations and the owner's answers to them.
pub mod Repo
pub mod Queue
pub mod Declare
pub mod Answer
pub mod Ledger
pub mod Outcome
pub mod Invariant
pub mod Frozen
