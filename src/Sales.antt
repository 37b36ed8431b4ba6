-- ===== src/Sales.antt =====
-- apps/api/src/modules/sales: sales cards and their lines.
pub mod Pricing
pub mod Rounding
pub mod Items
pub mod Repo
pub mod Books
pub mod Doors
pub mod Lines
pub mod Frozen
pub mod Confirm
pub mod Discounts
pub mod Versions
