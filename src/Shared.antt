-- ===== src/Shared.antt =====
-- packages/shared: the rules that the server and the apps share.
pub mod Status
pub mod Errors
pub mod Sequence
pub mod Permissions
