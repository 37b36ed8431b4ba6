-- ===== src/Jobs.antt =====
-- apps/api/src/modules/jobs: the jobs service over the jobs tables.
pub mod Repo
pub mod Cards
pub mod Rules
pub mod Sound
pub mod Status
pub mod Lookups
pub mod Assign
pub mod Reschedule
pub mod Create
pub mod Cancel
pub mod Invariant
pub mod Amend
pub mod Complete
