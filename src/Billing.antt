-- ===== src/Billing.antt =====
-- Payment orders and their settlement (src/modules/billing).
pub mod Catalog
pub mod Shared
pub mod Paid
pub mod Momo
pub mod Payos
pub mod Sync
pub mod Orders
pub mod Books
