-- ===== src/Store.antt =====
-- The database as the API's SQL sees it: the rows of each table, and transactions over them.
pub mod Rows
pub mod Events
pub mod Db
pub mod Tx
pub mod Steps
